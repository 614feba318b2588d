-- ===== src/Registry/Rollback.antt =====
-- `register` under failing database calls (cmd/worker/serve.go).
use edgelab.Image.Unpack.{written}
use edgelab.Shared.Table.{lookup}
use edgelab.Shared.{◌≡◌, ◌⊎◌, false, arith, Bool-cases, Option-cases, inl, inr, ℕ, ◌||◌}
use edgelab.Shared.Outcome.{err, Outcome-cases, ok}
use edgelab.Registry.{
  Database, Faults, Platform, Registration, RegisterError, register, register_new, replay_or_new,
  finish, next_state, write_rows,
}

abbrev pub no_faults : Faults
no_faults = record {
  begin = false;
  read_operation = false;
  count_operations = false;
  read_state = false;
  write_state = false;
  write_operation = false;
  commit = false;
}

-- Every call of a new operation has gone through: its reads, its writes and its commit.
abbrev pub HasCommitted : Faults → Type 0
HasCommitted f =
    (f.count_operations ≡ false)
    × (f.read_state ≡ false)
    × (f.write_state ≡ false)
    × (f.write_operation ≡ false)
    × (f.commit ≡ false)

-- An error leaves the database as it was.
pub register_error_unchanged :
    {Blob : Type 0} (p : Platform Blob) (f : Faults) (db : Database Blob) (request : Registration)
    {e : RegisterError}
    → (register p f db request).1 ≡ err e
    → (register p f db request).0 ≡ db
unfolding register replay_or_new finish
register_error_unchanged p f db request h = elim (Bool-cases (f.begin || f.read_operation)) [
  | inl bad ↦ ground arith
  | inr works ↦ elim (Option-cases (lookup request.operation db.operations)) [
    | inr (old, e) ↦ ground arith
    | inl new ↦ elim (Outcome-cases (register_new p f db request).1) [
      | inr (x, bad) ↦ ground arith
      | inl (n, good) ↦ ground arith
    ]
  ]
]

register_new_committed :
    {Blob : Type 0} (p : Platform Blob) (f : Faults) (db : Database Blob) (request : Registration)
    (revision : ℕ)
    → (register_new p f db request).1 ≡ ok revision
    → (f.count_operations ≡ false)
      × (f.read_state ≡ false)
      × (f.write_state ≡ false)
      × (f.write_operation ≡ false)
      × (register_new p f db request ≡ register_new p no_faults db request)
unfolding register_new next_state write_rows
register_new_committed p f db request revision h = elim (Bool-cases f.count_operations) [
  | inl bad ↦ absurd (ground arith)
  | inr counts ↦ elim (Bool-cases f.read_state) [
    | inl bad ↦ absurd (ground arith)
    | inr reads ↦
        let same : next_state p f db request ≡ next_state p no_faults db request = ground arith in
        elim (Outcome-cases (next_state p f db request)) [
          | inr (e, bad) ↦ absurd (ground arith)
          | inl (x, good) ↦ (counts, reads, ground arith, ground arith, ground arith)
        ]
  ]
]

-- Whatever calls of the database fail, `register` returns an error and leaves the database as it was,
-- or succeeds as it does when no call fails; and then the transaction has begun, the operation's row
-- has been read, and the database is as it was or every later call has gone through, the commit
-- included.
pub register_atomic :
    {Blob : Type 0} (p : Platform Blob) (f : Faults) (db : Database Blob) (request : Registration)
    → ((e : RegisterError) × (register p f db request ≡ (db, err e)))
      ⊎ ((revision : ℕ) × ((register p f db request).1 ≡ ok revision)
          × (register p f db request ≡ register p no_faults db request)
          × (f.begin ≡ false)
          × (f.read_operation ≡ false)
          × (((register p f db request).0 ≡ db) ⊎ HasCommitted f))
unfolding register replay_or_new finish
register_atomic p f db request = elim (Outcome-cases (register p f db request).1) [
  | inr (e, bad) ↦ inl (e, ground (arith, register_error_unchanged p f db request bad))
  | inl (n, good) ↦ elim (Option-cases (lookup request.operation db.operations)) [
    | inr (old, e) ↦ inr (n, good, ground arith, ground arith, ground arith, inl (ground arith))
    | inl new ↦ elim (Outcome-cases (register_new p f db request).1) [
      | inr (e, bad) ↦ absurd (ground arith)
      | inl (m, written) ↦
          let (counts, reads, writes, writes_row, same) =
            register_new_committed p f db request m written in
          inr (
            n,
            good,
            ground arith,
            ground arith,
            ground arith,
            inr (counts, reads, writes, writes_row, ground arith),
          )
    ]
  ]
]
