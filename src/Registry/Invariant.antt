-- ===== src/Registry/Invariant.antt =====
-- What holds of the registry's database between two requests (cmd/worker/serve.go).
use edgelab.Registry.Rollback.{register_error_unchanged}
use edgelab.Shared.Outcome.{Outcome-cases}
use edgelab.Shared.{
  ℕ, ◌+◌, ◌≤◌, String, ◌≡◌, false, some, [], ◌∷◌, arith, length, eq_iff, Option-cases,
  if◌then◌else◌, inl, inr, str_eq, subst, ◌∙◌,
}
use edgelab.Shared.Table.{
  Table, lookup, HasDistinctKeys, insert, insert-HasDistinctKeys, length-insert_new,
  length-insert_old, lookup-insert,
}
use edgelab.Registry.{
  Operation, Registration, RouteRecord, RouteSnapshot, is_taken, max_records, max_revision,
  record_request, Database, Platform, is_unknown_or_full, snapshot, Faults, register, u64,
  new_record,
}
use edgelab.Registry.Registered.{Admitted, Registered, recorded, replayed, register_ok}

pub record IsConsistent (operations : Table Operation) (s : RouteSnapshot) : Type 0 where
  pub distinct : HasDistinctKeys s.records
  pub named : (k : String) (r : RouteRecord) → lookup k s.records ≡ some r → r.id ≡ k
  pub dated : (k : String) (r : RouteRecord) → lookup k s.records ≡ some r → r.revision ≤ s.revision
  pub exclusive :
      (k j : String) (r q : RouteRecord)
      → lookup k s.records ≡ some r
      → lookup j s.records ≡ some q
      → r.endpoint ≡ q.endpoint
      → k ≡ j
  pub bounded : s.revision ≤ max_revision
  pub sized : length s.records ≤ max_records
  pub operations_dated :
      (k : String) (o : Operation) → lookup k operations ≡ some o → o.revision ≤ s.revision

-- An endpoint that is not taken belongs to the instance itself, if to any.
pub not_taken :
    (endpoint id k : String) (r : RouteRecord) (m : Table RouteRecord)
    → is_taken endpoint id m ≡ false
    → lookup k m ≡ some r
    → r.endpoint ≡ endpoint
    → k ≡ id
unfolding is_taken lookup
not_taken endpoint id k r [] h e same = ground arith
not_taken endpoint id k r ((j, q) ∷ m) h e same =
    ground (arith, eq_iff j k, eq_iff j id, eq_iff q.endpoint endpoint, not_taken endpoint id k r m)

module _ (count : ℕ) (state : RouteSnapshot) (request : Registration)
    (a : Admitted count state request) where
  pub revision-record_request : (record_request state request).revision ≡ state.revision + 1
  unfolding record_request
  revision-record_request = omega (arith, a.below_max)

  pub lookup-record_request :
      (k : String)
      → lookup k (record_request state request).records ≡ (
          if str_eq request.id k
          then some (new_record request (state.revision + 1))
          else lookup k state.records)
  unfolding record_request
  lookup-record_request k =
      let exact : u64 (state.revision + 1) ≡ state.revision + 1 = omega (arith, a.below_max) in
      rw (lookup-insert, exact)

  pub length-record_request :
      length state.records ≤ max_records
      → length (record_request state request).records ≤ max_records
  unfolding record_request is_unknown_or_full
  length-record_request h = elim (Option-cases (lookup request.id state.records)) [
    | inl e ↦ rw (length-insert_new _ _ _ e) (ground (arith, a.is_known))
    | inr (old, e) ↦ rw (length-insert_old _ _ old _ e) h
  ]

  module _ {operations : Table Operation} (c : IsConsistent operations state) where
    exclusive-record_request :
        (k j : String) (r q : RouteRecord)
        → lookup k (record_request state request).records ≡ some r
        → lookup j (record_request state request).records ≡ some q
        → r.endpoint ≡ q.endpoint
        → k ≡ j
    exclusive-record_request k j r q hr hq same = ground (
      arith,
      lookup-record_request k,
      lookup-record_request j,
      eq_iff request.id k,
      eq_iff request.id j,
      c.exclusive k j r q,
      not_taken request.endpoint request.id k r state.records a.is_free,
      not_taken request.endpoint request.id j q state.records a.is_free,
    )

    -- Recording an admitted request keeps the registry consistent.
    pub record_request-IsConsistent :
        (o : Operation)
        → o.revision ≡ state.revision + 1
        → IsConsistent (insert request.operation o operations) (record_request state request)
    record_request-IsConsistent o e = record {
      distinct = unfold record_request in insert-HasDistinctKeys _ _ _ c.distinct;
      named = λ k r h. ground (arith, lookup-record_request k, eq_iff request.id k, c.named k r);
      dated =
          λ k r h. ground (arith, lookup-record_request k, revision-record_request, c.dated k r);
      exclusive = exclusive-record_request;
      bounded = omega (arith, revision-record_request, a.below_max);
      sized = length-record_request c.sized;
      operations_dated = λ k q h. ground (
        arith,
        lookup-insert request.operation k o operations,
        revision-record_request,
        c.operations_dated k q,
      );
    }

module _ {Blob : Type 0} (p : Platform Blob) where
  -- The stored row decodes to a consistent registry.
  abbrev pub IsValid : Database Blob → Type 0
  IsValid db = (s : RouteSnapshot) × (snapshot p db ≡ some s) × IsConsistent db.operations s

  Registered-IsValid :
      (db : Database Blob) (request : Registration) {db' : Database Blob} {revision : ℕ}
      → Registered p db request db' revision
      → IsValid db
      → IsValid db'
  unfolding snapshot
  Registered-IsValid db request (replayed old e same r unchanged) v = rw unchanged v
  Registered-IsValid db request (recorded blob encoded state new row decoded a e r after)
        (s, h, c) =
      rw after (
        record_request state request,
        p.decode-encode _ _ e,
        record_request-IsConsistent (length db.operations) state request a
            (subst (IsConsistent db.operations) (ground arith) c) _
            (r ∙ revision-record_request (length db.operations) state request a),
      )

  -- Every request, whatever calls of the database fail, keeps a valid registry valid.
  pub register-IsValid :
      (f : Faults) (db : Database Blob) (request : Registration)
      → IsValid db
      → IsValid (register p f db request).0
  register-IsValid f db request v = elim (Outcome-cases (register p f db request).1) [
    | inl (revision, e) ↦ Registered-IsValid db request (register_ok p f db request e) v
    | inr (x, e) ↦ rw (register_error_unchanged p f db request e) v
  ]
