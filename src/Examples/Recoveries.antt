-- ===== src/Examples/Recoveries.antt =====
-- A recovery from a backup that two routers have gone past.
use edgelab.Examples.Fixtures.{route, snapshot_of}
use edgelab.Recovery.Progress.{prepare_total}
use edgelab.Recovery.Prepared.{prepare-Covers, prepare-exceeds, prepare-quarantine_iff}
use edgelab.Shared.Outcome.{ok}
use edgelab.Recovery.{
  advance, carry_deletion, is_quarantined, join, merge_owner, merge_owners, merge_record,
  merge_records, prepare, raise_to, reconcile_backup, same_identity, store,
}
use edgelab.Registry.{RouteRecord, RouteSnapshot, max_revision}
use mathlib.Core.List.{Memᴰ}
use edgelab.Shared.{
  List, String, [], arith, false, if◌then◌else◌, none, refl, some, str_eq, true, ◌<◌, ◌↔◌, ◌∷◌, ◌≡◌,
  ◌≤◌,
}
use edgelab.Recovery.Origins.{IsAccepted, recovered-IsAccepted}
use edgelab.Shared.Table.{HasDistinctKeys, Table, insert, lookup}
use edgelab.Recovery.Merge.{Covers}

abbrev backup : RouteSnapshot
backup = snapshot_of 3 (
    ("one", route "one" "127.0.0.1:19001" 2 false)
    ∷ ("lost", route "lost" "127.0.0.1:19009" 3 false)
    ∷ [])

abbrev east : RouteSnapshot
east = snapshot_of 4 (("one", route "one" "127.0.0.1:19001" 4 true) ∷ [])

abbrev west : RouteSnapshot
west = snapshot_of 5 (
    ("one", route "one" "127.0.0.1:19001" 2 false)
    ∷ ("two", route "two" "127.0.0.1:19002" 5 false)
    ∷ [])

abbrev accounts : List RouteSnapshot
accounts = east ∷ west ∷ []

abbrev recovered : RouteSnapshot
recovered = record {
  schema = 1;
  owner = "worker-1";
  incarnation = 2;
  revision = 6;
  records =
      ("one", route "one" "127.0.0.1:19001" 4 true)
      ∷ ("two", route "two" "127.0.0.1:19002" 5 false)
      ∷ [];
}

abbrev aside : Table RouteRecord
aside =
    ("one", route "one" "127.0.0.1:19001" 2 false)
    ∷ ("lost", route "lost" "127.0.0.1:19009" 3 false)
    ∷ []

recovered_is : prepare backup accounts ≡ ok (recovered, aside)
unfolding prepare merge_owners merge_owner merge_records merge_record join same_identity raise_to
    advance reconcile_backup carry_deletion is_quarantined store lookup insert
recovered_is = refl

backup-distinct : HasDistinctKeys backup.records
unfolding lookup
backup-distinct = (refl, (refl, tt))

prepare-Covers_example : Covers recovered.records west.records
prepare-Covers_example =
    prepare-Covers backup accounts recovered aside recovered_is backup-distinct west
      (Memᴰ.tail (Memᴰ.head refl))

prepare-exceeds_example :
    (backup.incarnation < recovered.incarnation)
    × (backup.revision < recovered.revision)
    × (recovered.incarnation ≤ max_revision)
    × (recovered.revision ≤ max_revision)
    × (recovered.owner ≡ backup.owner)
    × ((o : RouteSnapshot)
        → Memᴰ o accounts
        → (o.incarnation < recovered.incarnation) × (o.revision < recovered.revision))
prepare-exceeds_example = prepare-exceeds backup accounts recovered aside recovered_is

prepare-quarantine_iff_example : (lookup "one" aside ≡ none) ↔ (
    (a : RouteRecord) × (lookup "one" recovered.records ≡ some a)
    × (a.app ≡ "echo")
    × (a.endpoint ≡ "127.0.0.1:19001")
    × (a.deleted ≡ false))
unfolding lookup
prepare-quarantine_iff_example =
    prepare-quarantine_iff backup accounts recovered aside recovered_is backup-distinct "one"
      (route "one" "127.0.0.1:19001" 2 false) refl

recovered-IsAccepted_example : IsAccepted accounts "two" "echo" "127.0.0.1:19002"
unfolding lookup
recovered-IsAccepted_example =
    recovered-IsAccepted backup accounts recovered aside "two"
      (route "two" "127.0.0.1:19002" 5 false) recovered_is backup-distinct refl

abbrev endpoint_of : String → String
endpoint_of k = if str_eq k "one" then "127.0.0.1:19001" else "127.0.0.1:19002"

prepare_total_example :
    (s : RouteSnapshot) × (quarantined : Table RouteRecord) × (prepare backup accounts
      ≡ ok (s, quarantined))
prepare_total_example =
    prepare_total (λ k. "echo") endpoint_of backup accounts
      (((refl, refl), tt), (((refl, refl), ((refl, refl), tt)), tt)) (omega arith) (omega arith)
      (omega arith)
