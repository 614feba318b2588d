-- ===== src/Registry/Idempotency.antt =====
-- The operation identity of a request (cmd/worker/serve.go): a retry is answered as the first time.
use edgelab.Registry.Rollback.{no_faults, register_error_unchanged}
use edgelab.Shared.Table.{lookup, lookup-insert}
use edgelab.Registry.Registered.{Registered, recorded, replayed, register_ok}
use edgelab.Shared.Outcome.{Outcome-cases, err, ok}
use edgelab.Shared.{
  List, String, [], arith, eq_iff, eq_refl, inl, inr, some, ℕ, ◌∷◌, ◌≡◌, ◌≢◌, if◌then◌else◌, ◌||◌,
}
use edgelab.Registry.{
  database, Database, Faults, Operation, Platform, Registration, different_intent, register,
  replay_or_new,
}
use edgelab.Registry.History.{serve_requests}

module _ {Blob : Type 0} (p : Platform Blob) where
  Registered-keeps_operation :
      (db : Database Blob) (request : Registration) {db' : Database Blob} {revision : ℕ}
      (k : String) (row : Operation)
      → Registered p db request db' revision
      → lookup k db.operations ≡ some row
      → lookup k db'.operations ≡ some row
  Registered-keeps_operation db request k row (replayed old e same r unchanged) h = rw unchanged h
  Registered-keeps_operation db request {revision = revision} k row
        (recorded blob encoded state new b decoded a e r after) h =
      rw (after, lookup-insert) (ground (arith, eq_iff request.operation k))

  register-keeps_operation :
      (f : Faults) (db : Database Blob) (request : Registration) (k : String) (row : Operation)
      → lookup k db.operations ≡ some row
      → lookup k (register p f db request).0.operations ≡ some row
  register-keeps_operation f db request k row h = elim (Outcome-cases (register p f db request).1) [
    | inl (revision, e) ↦
        Registered-keeps_operation db request {revision = revision} k row
          (register_ok p f db request e) h
    | inr (x, e) ↦ rw (register_error_unchanged p f db request e) h
  ]

  pub serve_requests-keeps_operation :
      (db : Database Blob) (history : List (Faults × Registration)) (k : String) (row : Operation)
      → lookup k db.operations ≡ some row
      → lookup k (serve_requests p db history).operations ≡ some row
  unfolding serve_requests
  serve_requests-keeps_operation db [] k row h = h
  serve_requests-keeps_operation db ((f, request) ∷ rest) k row h =
      serve_requests-keeps_operation (register p f db request).0 rest k row
        (register-keeps_operation f db request k row h)

  -- The row that a successful request leaves under its operation.
  Registered-operation :
      (db : Database Blob) (request : Registration) {db' : Database Blob} {revision : ℕ}
      → Registered p db request db' revision
      → lookup request.operation db'.operations
        ≡ some (record { request_hash = p.request_hash request; revision = revision })
  Registered-operation db request (replayed old e same r unchanged) = ground arith
  Registered-operation db request {revision = revision}
        (recorded blob encoded state new b decoded a e r after) =
      rw (after, lookup-insert, eq_refl)

  module _ (f : Faults) (db : Database Blob) (request : Registration) (revision : ℕ)
      (done : (register p f db request).1 ≡ ok revision)
      (history : List (Faults × Registration)) where
    row_after :
        lookup request.operation (serve_requests p (register p f db request).0 history).operations
        ≡ some (record { request_hash = p.request_hash request; revision = revision })
    row_after =
        serve_requests-keeps_operation _ history _ _
          (Registered-operation db request (register_ok p f db request done))

    -- Once a request has succeeded, the same request changes nothing after any history of other
    -- requests and failures, whatever calls of the database fail under it: it is answered with the
    -- same revision if the transaction begins and the operation's row can be read, and with a database
    -- error if not.
    pub register_retry :
        (g : Faults)
        → let later = serve_requests p (register p f db request).0 history in
          register p g later request
          ≡ (later, if g.begin || g.read_operation then err database else ok revision)
    unfolding register replay_or_new
    register_retry g =
        rw row_after (ground (arith, eq_iff (p.request_hash request) (p.request_hash request)))

    -- And a different request under that operation is refused, and changes nothing.
    register_other_intent :
        (other : Registration)
        → other.operation ≡ request.operation
        → p.request_hash other ≢ p.request_hash request
        → let later = serve_requests p (register p f db request).0 history in
          register p no_faults later other ≡ (later, err different_intent)
    unfolding register replay_or_new
    register_other_intent other same differs =
        rw (same, row_after)
          (ground (arith, eq_iff (p.request_hash request) (p.request_hash other)))
