-- ===== src/Examples/Registrations.antt =====
-- Runs of the registry.
use edgelab.Examples.Fixtures.{
  add_one, add_two, crash_in_commit, delete_one, new_database, opened, plain, route, snapshot_of,
}
use edgelab.Registry.Lives.{Allows, Follows, lives, view}
use edgelab.Registry.Refinement.{check_iff, serve_requests-Follows}
use edgelab.Registry.Idempotency.{register_retry}
use edgelab.Registry.Rollback.{no_faults, register_atomic, HasCommitted}
use edgelab.Shared.Table.{insert, lookup}
use edgelab.Shared.Outcome.{err, ok}
use edgelab.Registry.History.{
  serve_requests, serve_requests-Extends, serve_requests-IsValid, open_database,
  open_database-IsValid,
}
use edgelab.Registry.Deletion.{deletion_succeeds}
use edgelab.Shared.{
  List, [], arith, false, length, refl, some, subst, true, ◌∷◌, ◌≡◌, ◌⊎◌, ◌↔◌, if◌then◌else◌, ℕ,
  ◌||◌,
}
use edgelab.Registry.Invariant.{IsConsistent, IsValid}
use edgelab.Registry.Identity.{Extends}
use edgelab.Registry.{
  Database, Faults, Registration, RouteSnapshot, check, conflicts, database, is_reserved_deletion,
  is_taken, is_unknown_or_full, record_request, register, register_new, replay_or_new, snapshot,
  RegisterError, finish, next_state, write_rows,
}

opened_is : open_database plain "worker-1" new_database ≡ ok opened
unfolding open_database
opened_is = refl

opened-IsValid : IsValid plain opened
opened-IsValid = open_database-IsValid plain "worker-1" new_database opened refl refl opened_is

abbrev two_adds : List (Faults × Registration)
two_adds = (no_faults, add_one) ∷ (crash_in_commit, add_two) ∷ (no_faults, add_two) ∷ []

abbrev populated : Database RouteSnapshot
populated = serve_requests plain opened two_adds

abbrev first_snapshot : RouteSnapshot
first_snapshot = snapshot_of 1 []

abbrev later_snapshot : RouteSnapshot
later_snapshot = snapshot_of 3 (
    ("one", route "one" "127.0.0.1:19001" 2 false)
    ∷ ("two", route "two" "127.0.0.1:19002" 3 false)
    ∷ [])

abbrev deleted_snapshot : RouteSnapshot
deleted_snapshot = snapshot_of 4 (
    ("one", route "one" "127.0.0.1:19001" 4 true)
    ∷ ("two", route "two" "127.0.0.1:19002" 3 false)
    ∷ [])

opened-snapshot : snapshot plain opened ≡ some first_snapshot
unfolding snapshot
opened-snapshot = refl

populated-snapshot : snapshot plain populated ≡ some later_snapshot
unfolding snapshot serve_requests register replay_or_new register_new next_state write_rows finish
    check record_request lookup insert is_reserved_deletion conflicts is_unknown_or_full is_taken
populated-snapshot = refl

deleted-snapshot :
    snapshot plain (serve_requests plain populated ((no_faults, delete_one) ∷ []))
    ≡ some deleted_snapshot
unfolding snapshot serve_requests register replay_or_new register_new next_state write_rows finish
    check record_request lookup insert is_reserved_deletion conflicts is_unknown_or_full is_taken
deleted-snapshot = refl

first_done : (register plain no_faults opened add_one).1 ≡ ok 2
unfolding snapshot serve_requests register replay_or_new register_new next_state write_rows finish
    check record_request lookup insert is_reserved_deletion conflicts is_unknown_or_full is_taken
first_done = refl

populated-IsValid : IsValid plain populated
populated-IsValid = serve_requests-IsValid plain opened two_adds opened-IsValid

serve_requests-IsValid_example : IsValid plain populated
serve_requests-IsValid_example = serve_requests-IsValid plain opened two_adds opened-IsValid

serve_requests-Extends_example :
    (s' : RouteSnapshot) × (snapshot plain populated ≡ some s') × Extends first_snapshot s'
serve_requests-Extends_example =
    serve_requests-Extends plain opened two_adds first_snapshot opened-snapshot

register_retry_example :
    let later = serve_requests plain (register plain no_faults opened add_one).0 two_adds in
    register plain crash_in_commit later add_one ≡ (
      later,
      if crash_in_commit.begin || crash_in_commit.read_operation then err database else ok 2,
    )
register_retry_example =
    register_retry plain no_faults opened add_one 2 first_done two_adds crash_in_commit

register_atomic_example :
    ((e : RegisterError) × (register plain crash_in_commit opened add_one ≡ (opened, err e)))
    ⊎ ((revision : ℕ) × ((register plain crash_in_commit opened add_one).1 ≡ ok revision)
        × (register plain crash_in_commit opened add_one ≡ register plain no_faults opened add_one)
        × (crash_in_commit.begin ≡ false)
        × (crash_in_commit.read_operation ≡ false)
        × (((register plain crash_in_commit opened add_one).0 ≡ opened)
            ⊎ HasCommitted crash_in_commit))
register_atomic_example = register_atomic plain crash_in_commit opened add_one

later-IsConsistent : IsConsistent populated.operations later_snapshot
later-IsConsistent =
    let (s, h, c) = serve_requests-IsValid plain opened two_adds opened-IsValid in
    subst (IsConsistent populated.operations) (ground (arith, populated-snapshot)) c

deletion_succeeds_example :
    let after = (register plain no_faults populated delete_one).0 in
    ((register plain no_faults populated delete_one).1 ≡ ok 4)
    × (snapshot plain after ≡ some (record_request later_snapshot delete_one))
    × (lookup delete_one.id (record_request later_snapshot delete_one).records
        ≡ some (record {
          id = delete_one.id;
          app = "echo";
          endpoint = "127.0.0.1:19001";
          revision = 4;
          deleted = true;
        }))
    × (lookup delete_one.operation after.operations
        ≡ some (record { request_hash = plain.request_hash delete_one; revision = 4 }))
unfolding snapshot serve_requests register replay_or_new register_new next_state write_rows finish
    check record_request lookup insert is_reserved_deletion conflicts is_unknown_or_full is_taken
deletion_succeeds_example =
    deletion_succeeds plain populated later_snapshot delete_one
      (route "one" "127.0.0.1:19001" 2 false) deleted_snapshot populated-snapshot later-IsConsistent
      refl refl refl refl refl refl (omega arith) refl

serve_requests-Follows_example :
    Follows (lives plain opened) (add_one ∷ add_two ∷ add_two ∷ []) (lives plain populated)
serve_requests-Follows_example = serve_requests-Follows plain opened two_adds opened-IsValid

check_iff_example :
    (check (length populated.operations) later_snapshot delete_one ≡ ok tt)
    ↔ Allows (view later_snapshot) delete_one
unfolding serve_requests register replay_or_new register_new next_state write_rows finish check
    record_request lookup insert is_reserved_deletion conflicts is_unknown_or_full is_taken snapshot
check_iff_example =
    check_iff populated.operations later_snapshot delete_one later-IsConsistent (omega arith)
      (omega arith) (omega arith)
