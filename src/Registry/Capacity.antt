-- ===== src/Registry/Capacity.antt =====
-- The bounds of the registry (cmd/worker/serve.go): how many operations are ever stored, and the
-- deletions for which room is kept.
use edgelab.Registry.History.{serve_requests}
use edgelab.Registry.Rollback.{register_error_unchanged}
use edgelab.Shared.Outcome.{Outcome-cases}
use edgelab.Registry.Invariant.{
  IsConsistent, IsValid, record_request-IsConsistent, revision-record_request,
  length-record_request,
}
use edgelab.Registry.Registered.{Admitted, Registered, recorded, register_ok, replayed}
use edgelab.Shared.Table.{Table, insert, lookup, length-insert_new}
use edgelab.Registry.{
  Registration, RouteRecord, is_reserved_deletion, Database, Faults, Operation, Platform,
  RouteSnapshot, max_operations, max_records, record_request, register, snapshot,
}
use edgelab.Shared.{
  Option, String, [], arith, false, if◌then◌else◌, length, none, refl, some, suc, true, ℕ, ◌∷◌, ◌≡◌,
  ◌≤◌, List, inl, inr, subst, ◌+◌, ◌∙◌,
}

-- The records that are not deleted.
abbrev pub live : Table RouteRecord → ℕ
live [] = 0
live ((k, r) ∷ m) = if r.deleted then live m else suc (live m)

live-le-length : (m : Table RouteRecord) → live m ≤ length m
live-le-length [] = omega arith
live-le-length ((k, r) ∷ m) = ground (arith, live-le-length m)

-- To delete a live record takes one off the count.
live-insert_deleted :
    (k : String) (new old : RouteRecord) (m : Table RouteRecord)
    → lookup k m ≡ some old
    → old.deleted ≡ false
    → new.deleted ≡ true
    → suc (live (insert k new m)) ≡ live m
unfolding lookup insert
live-insert_deleted k new old [] h o n = cc
live-insert_deleted k new old ((j, q) ∷ m) h o n = ground (arith, live-insert_deleted k new old m)

reserved-live :
    (o : Option RouteRecord) (request : Registration)
    → is_reserved_deletion o request ≡ true
    → (old : RouteRecord) × (o ≡ some old) × (old.deleted ≡ false) × (request.deleted ≡ true)
unfolding is_reserved_deletion
reserved-live none request h = cc
reserved-live (some old) request h = (old, refl, ground arith, ground arith)

-- Room for `operations` and for the deletion of every live record.
abbrev pub HasReserve : Table Operation → RouteSnapshot → Type 0
HasReserve operations s = length operations + live s.records ≤ max_operations + max_records

module _ (operations : Table Operation) (s : RouteSnapshot) (request : Registration) (o : Operation)
    (a : Admitted (length operations) s request) (c : IsConsistent operations s)
    (new : lookup request.operation operations ≡ none) where
  live-record_request_reserved :
      is_reserved_deletion (lookup request.id s.records) request ≡ true
      → suc (live (record_request s request).records) ≡ live s.records
  unfolding record_request
  live-record_request_reserved h =
      let (old, found, alive, deleted) = reserved-live (lookup request.id s.records) request h in
      live-insert_deleted request.id _ old s.records found alive deleted

  HasReserve-record_request :
      HasReserve operations s
      → HasReserve (insert request.operation o operations) (record_request s request)
  HasReserve-record_request h = elim a.has_room [
    | inl room ↦ omega (
      arith,
      length-insert_new request.operation o operations new,
      live-le-length (record_request s request).records,
      length-record_request (length operations) s request a c.sized,
    )
    | inr reserved ↦ omega (
      arith,
      length-insert_new request.operation o operations new,
      live-record_request_reserved reserved,
    )
  ]

module _ {Blob : Type 0} (p : Platform Blob) where
  -- A valid registry with its reserve.
  abbrev pub IsBounded : Database Blob → Type 0
  IsBounded db =
      (s : RouteSnapshot) × (snapshot p db ≡ some s)
      × IsConsistent db.operations s
      × HasReserve db.operations s

  Registered-IsBounded :
      (db : Database Blob) (request : Registration) {db' : Database Blob} {revision : ℕ}
      → Registered p db request db' revision
      → IsBounded db
      → IsBounded db'
  unfolding snapshot
  Registered-IsBounded db request (replayed old e same r unchanged) b = rw unchanged b
  Registered-IsBounded db request (recorded blob encoded state new row decoded a e r after)
        (s, h, c, b) =
      let same : s ≡ state = ground arith in
      let c' = subst (IsConsistent db.operations) same c in
      rw after (
        record_request state request,
        p.decode-encode _ _ e,
        record_request-IsConsistent (length db.operations) state request a c' _
            (r ∙ revision-record_request (length db.operations) state request a),
        HasReserve-record_request db.operations state request _ a c' new
            (subst (HasReserve db.operations) same b),
      )

  serve_requests-IsBounded :
      (db : Database Blob) (history : List (Faults × Registration))
      → IsBounded db
      → IsBounded (serve_requests p db history)
  unfolding serve_requests
  serve_requests-IsBounded db [] b = b
  serve_requests-IsBounded db ((f, request) ∷ rest) b =
      serve_requests-IsBounded (register p f db request).0 rest
        (elim (Outcome-cases (register p f db request).1) [
          | inl (revision, e) ↦ Registered-IsBounded db request (register_ok p f db request e) b
          | inr (x, e) ↦ rw (register_error_unchanged p f db request e) b
        ])

  -- From a valid registry with at most `max_operations` stored operations, no history of requests
  -- stores more than `max_records` beyond them: those are the deletions for which room is kept.
  operations_bounded :
      (db : Database Blob) (history : List (Faults × Registration))
      → IsValid p db
      → length db.operations ≤ max_operations
      → length (serve_requests p db history).operations ≤ max_operations + max_records
  operations_bounded db history (s, h, c) few =
      let (s', h', c', b) =
        serve_requests-IsBounded db history
          (s, h, c, omega (arith, c.sized, live-le-length s.records)) in
      omega (arith, b)
