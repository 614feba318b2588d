-- ===== src/Registry/Registered.antt =====
-- What a successful `register` (cmd/worker/serve.go) has gone through: the two ways it succeeds, and
-- what its guards leave.
use edgelab.Shared.{
  ℕ, ◌<◌, ◌≡◌, ◌⊎◌, inl, inr, true, false, some, none, arith, length, Option-cases, eq_iff,
}
use edgelab.Shared.Table.{lookup, insert}
use edgelab.Shared.Outcome.{ok, Outcome-cases}
use edgelab.Registry.{
  Database, Faults, Operation, Platform, Registration, RouteSnapshot, check, conflicts,
  is_reserved_deletion, is_taken, is_unknown_or_full, max_operations, max_revision, record_request,
  register, register_new, replay_or_new, finish, next_state, write_rows,
}

-- The guards of a new operation, once passed.
pub record Admitted (count : ℕ) (state : RouteSnapshot) (request : Registration) : Type 0 where
  pub has_room :
      (count < max_operations)
      ⊎ (is_reserved_deletion (lookup request.id state.records) request ≡ true)
  pub agrees : conflicts (lookup request.id state.records) request ≡ false
  pub is_known :
      is_unknown_or_full (lookup request.id state.records) request (length state.records) ≡ false
  pub is_free : is_taken request.endpoint request.id state.records ≡ false
  pub below_max : state.revision < max_revision

pub check-Admitted :
    (count : ℕ) (state : RouteSnapshot) (request : Registration)
    → check count state request ≡ ok tt
    → Admitted count state request
unfolding check
check-Admitted count state request h = ground arith

pub data Registered {Blob : Type 0} (p : Platform Blob) (db : Database Blob)
    (request : Registration) (db' : Database Blob) (revision : ℕ) : Type 0 where
  replayed :
      (old : Operation)
      → lookup request.operation db.operations ≡ some old
      → old.request_hash ≡ p.request_hash request
      → revision ≡ old.revision
      → db' ≡ db
      → Registered p db request db' revision
  recorded :
      (blob encoded : Blob) (state : RouteSnapshot)
      → lookup request.operation db.operations ≡ none
      → db.body ≡ some blob
      → p.decode blob ≡ some state
      → Admitted (length db.operations) state request
      → p.encode (record_request state request) ≡ some encoded
      → revision ≡ (record_request state request).revision
      → db' ≡ record {
        body = some encoded;
        operations =
            insert request.operation
              (record { request_hash = p.request_hash request; revision = revision })
              db.operations;
      }
      → Registered p db request db' revision

module _ {Blob : Type 0} (p : Platform Blob) (f : Faults) (db : Database Blob)
    (request : Registration) {db' : Database Blob} {revision : ℕ} where
  register_new-recorded :
      lookup request.operation db.operations ≡ none
      → register_new p f db request ≡ (db', ok revision)
      → Registered p db request db' revision
  unfolding register_new next_state write_rows
  register_new-recorded new h = elim (Option-cases db.body) [
    | inl e ↦ absurd (ground arith)
    | inr (blob, row) ↦ elim (Option-cases (p.decode blob)) [
      | inl e ↦ absurd (ground arith)
      | inr (state, decoded) ↦ elim (Option-cases (p.encode (record_request state request))) [
        | inl e ↦ absurd (ground arith)
        | inr (encoded, e) ↦
            recorded blob encoded state new row decoded
              (check-Admitted (length db.operations) state request (ground arith)) e (ground arith)
              (ground arith)
      ]
    ]
  ]

  pub register-Registered :
      register p f db request ≡ (db', ok revision) → Registered p db request db' revision
  unfolding register replay_or_new finish
  register-Registered h = elim (Option-cases (lookup request.operation db.operations)) [
    | inl new ↦ elim (Outcome-cases (register_new p f db request).1) [
      | inr (x, bad) ↦ absurd (ground arith)
      | inl (n, good) ↦ register_new-recorded new (ground arith)
    ]
    | inr (old, e) ↦
        let same = eq_iff old.request_hash (p.request_hash request) in
        replayed old e (ground (arith, same)) (ground arith) (ground arith)
  ]

-- The same of the result alone.
pub register_ok :
    {Blob : Type 0} (p : Platform Blob) (f : Faults) (db : Database Blob) (request : Registration)
    {revision : ℕ}
    → (register p f db request).1 ≡ ok revision
    → Registered p db request (register p f db request).0 revision
register_ok p f db request {revision} h =
    register-Registered p f db request {db' = (register p f db request).0} {revision = revision}
      (ground arith)
