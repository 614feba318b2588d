-- ===== src/Registry/Revisions.antt =====
-- Revisions (cmd/worker/serve.go): each recorded operation takes the next one.
use edgelab.Registry.History.{serve_requests}
use edgelab.Registry.Rollback.{register_error_unchanged}
use edgelab.Registry.Identity.{register-Extends}
use edgelab.Shared.Outcome.{Outcome-cases}
use edgelab.Registry.Invariant.{revision-record_request}
use edgelab.Shared.Table.{length-insert_new}
use edgelab.Shared.{arith, length, some, ℕ, ◌+◌, ◌≡◌, List, [], inl, inr, ◌∷◌}
use edgelab.Registry.Registered.{Registered, recorded, replayed, register_ok}
use edgelab.Registry.{
  Database, Platform, Registration, RouteSnapshot, record_request, snapshot, Faults, register,
}

module _ {Blob : Type 0} (p : Platform Blob) where
  -- A revision for each operation.
  abbrev pub InStep : Database Blob → Database Blob → Type 0
  InStep db db' =
      (s s' : RouteSnapshot)
      → snapshot p db ≡ some s
      → snapshot p db' ≡ some s'
      → s'.revision + length db.operations ≡ s.revision + length db'.operations

  Registered-InStep :
      (db : Database Blob) (request : Registration) {db' : Database Blob} {revision : ℕ}
      → Registered p db request db' revision
      → InStep db db'
  unfolding snapshot
  Registered-InStep db request (replayed old e same r unchanged) s s' h h' = ground arith
  Registered-InStep db request {db'} {revision}
        (recorded blob encoded state new row decoded a e r after) s s' h h' =
      ground (
        arith,
        p.decode-encode (record_request state request) encoded e,
        revision-record_request (length db.operations) state request a,
        length-insert_new request.operation
            (record { request_hash = p.request_hash request; revision = revision }) db.operations
            new,
      )

  register-InStep :
      (f : Faults) (db : Database Blob) (request : Registration)
      → InStep db (register p f db request).0
  register-InStep f db request = elim (Outcome-cases (register p f db request).1) [
    | inl (revision, e) ↦ Registered-InStep db request (register_ok p f db request e)
    | inr (x, e) ↦ λ s s' h h'. ground (arith, register_error_unchanged p f db request e)
  ]

  -- Over any history of requests and failures the snapshot's revision grows by exactly the number
  -- of operations that the history has stored.
  revision_counts_operations :
      (db : Database Blob) (history : List (Faults × Registration)) (s s' : RouteSnapshot)
      → snapshot p db ≡ some s
      → snapshot p (serve_requests p db history) ≡ some s'
      → s'.revision + length db.operations
        ≡ s.revision + length (serve_requests p db history).operations
  unfolding serve_requests
  revision_counts_operations db [] s s' h h' = ground arith
  revision_counts_operations db ((f, request) ∷ rest) s s' h h' =
      let (t, ht, e) = register-Extends p f db request s h in
      omega (
        arith,
        register-InStep f db request s t h ht,
        revision_counts_operations (register p f db request).0 rest t s' ht h',
      )
