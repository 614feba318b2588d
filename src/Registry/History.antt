-- ===== src/Registry/History.antt =====
-- The life of a worker's database (cmd/worker/serve.go): serveWorker opens it, and the requests to
-- `/instances` change it one after the other, under the daemon's mutex.
use edgelab.Registry.Identity.{Extends, Extends-refl, Extends-trans, register-Extends}
use edgelab.Shared.Table.{lookup}
use edgelab.Shared.Outcome.{Outcome, err, expect, fail_if, ok, ◌>>=◌, ◌>>◌}
use edgelab.Shared.{
  List, Option-cases, String, [], arith, inl, inr, none, not, some, str_eq, ◌∷◌, ◌≡◌, sym, ◌∙◌,
}
use edgelab.Registry.Invariant.{IsConsistent, IsValid, register-IsValid}
use edgelab.Registry.{
  Database, Faults, Platform, Registration, RouteSnapshot, register, snapshot, RouteRecord,
}

pub data OpenError : Type 0 where
  not_stored undecodable_body other_owner : OpenError

-- The snapshot that serveWorker inserts.
unfoldable pub empty_snapshot : String → RouteSnapshot
empty_snapshot owner = record {
  schema = 1;
  owner = owner;
  incarnation = 1;
  revision = 1;
  records = [];
}

module _ {Blob : Type 0} (p : Platform Blob) where
  -- INSERT OR IGNORE
  unfoldable pub insert_initial : String → Database Blob → Outcome OpenError (Database Blob)
  unfolding empty_snapshot
  insert_initial owner db = elim db.body [
    | some blob ↦ ok db
    | none ↦ elim (p.encode (empty_snapshot owner)) [
      | none ↦ err not_stored
      | some blob ↦ ok (record db { body = some blob })
    ]
  ]

  unfoldable pub open_database : String → Database Blob → Outcome OpenError (Database Blob)
  unfolding insert_initial snapshot
  open_database owner db = do
    db' ← insert_initial owner db
    current ← expect undecodable_body (snapshot p db')
    fail_if (not (str_eq current.owner owner)) other_owner
    ok db'

  -- A history of requests, each with the calls of the database that fail under it.
  unfoldable pub serve_requests : Database Blob → List (Faults × Registration) → Database Blob
  serve_requests db [] = db
  serve_requests db ((f, request) ∷ rest) = serve_requests (register p f db request).0 rest

  -- Through any history of requests, and whatever calls of the database fail under them, a valid
  -- registry stays valid: the stored snapshot decodes to one with each key once, each record under
  -- its own identity and dated no later than the snapshot, no two instances on one endpoint, at most
  -- `max_records` records and a revision of at most `max_revision`, which no operation passes.
  pub serve_requests-IsValid :
      (db : Database Blob) (history : List (Faults × Registration))
      → IsValid p db
      → IsValid p (serve_requests db history)
  unfolding serve_requests
  serve_requests-IsValid db [] v = v
  serve_requests-IsValid db ((f, request) ∷ rest) v =
      serve_requests-IsValid (register p f db request).0 rest (register-IsValid p f db request v)

  pub empty-IsConsistent : (owner : String) → IsConsistent [] (empty_snapshot owner)
  unfolding empty_snapshot lookup
  empty-IsConsistent owner = record {
    distinct = tt;
    named = λ k r h. cc;
    dated = λ k r h. cc;
    exclusive = λ k j r q h. cc;
    bounded = omega arith;
    sized = omega arith;
    operations_dated = λ k o h. cc;
  }

  -- The database of a new worker, with no row and no operation, is valid once it has been opened.
  pub open_database-IsValid :
      (owner : String) (db db' : Database Blob)
      → db.body ≡ none
      → db.operations ≡ []
      → open_database owner db ≡ ok db'
      → IsValid p db'
  unfolding open_database
  open_database-IsValid owner db db' empty no_operations h =
      elim (Option-cases (p.encode (empty_snapshot owner))) [
        | inl e ↦ absurd (ground arith)
        | inr (blob, e) ↦
            let after : db' ≡ record db { body = some blob } = ground arith in
            (
              empty_snapshot owner,
              rw after (p.decode-encode _ _ e),
              rw (after, no_operations) (empty-IsConsistent owner),
            )
      ]

  -- Through any history of requests and failures the owner and the incarnation stay, the revision
  -- never falls, and each instance keeps its application, its endpoint and, once deleted, its
  -- deletion.
  pub serve_requests-Extends :
      (db : Database Blob) (history : List (Faults × Registration)) (s : RouteSnapshot)
      → snapshot p db ≡ some s
      → (s' : RouteSnapshot) × (snapshot p (serve_requests db history) ≡ some s') × Extends s s'
  unfolding serve_requests
  serve_requests-Extends db [] s h = (s, h, Extends-refl s)
  serve_requests-Extends db ((f, request) ∷ rest) s h =
      let (t, ht, first) = register-Extends p f db request s h in
      let (u, hu, later) = serve_requests-Extends (register p f db request).0 rest t ht in
      (u, hu, Extends-trans first later)

  -- In a valid registry an endpoint stays with the instance that has it, deleted or not: after any
  -- history of requests and failures no other instance has it.
  endpoint_reserved_forever :
      (db : Database Blob) (history : List (Faults × Registration)) (s s' : RouteSnapshot)
      (k j : String) (r q : RouteRecord)
      → IsValid p db
      → snapshot p db ≡ some s
      → snapshot p (serve_requests db history) ≡ some s'
      → lookup k s.records ≡ some r
      → lookup j s'.records ≡ some q
      → q.endpoint ≡ r.endpoint
      → j ≡ k
  endpoint_reserved_forever db history s s' k j r q v h h' hr hq same =
      let (t, ht, e) = serve_requests-Extends db history s h in
      let (u, hu, c) = serve_requests-IsValid db history v in
      let (r', hr', app, endpoint, deleted) = e.record_kept k r hr in
      let at_t : s' ≡ t = ground arith in
      let at_u : t ≡ u = ground arith in
      c.exclusive j k q r' (ground arith) (ground arith) (same ∙ sym endpoint)
