-- ===== src/Registry/Deletion.antt =====
-- The deletion of an instance always goes through (cmd/worker/serve.go): the reserve at work.
use edgelab.Registry.Registered.{check-Admitted}
use edgelab.Shared.Outcome.{ok}
use edgelab.Registry.Rollback.{no_faults}
use edgelab.Registry.Invariant.{IsConsistent, revision-record_request, lookup-record_request}
use edgelab.Shared.Table.{HasDistinctKeys, Table, lookup, lookup-insert}
use edgelab.Registry.{
  Database, Operation, Platform, Registration, RouteRecord, RouteSnapshot, check, conflicts,
  is_reserved_deletion, is_taken, is_unknown_or_full, max_revision, record_request, register,
  register_new, replay_or_new, snapshot, finish, next_state, write_rows,
}
use edgelab.Shared.{
  Bool-cases, String, [], arith, eq_iff, false, inl, inr, length, none, not, some, str_eq, true,
  ◌&&◌, ◌+◌, ◌<◌, ◌∙◌, ◌∷◌, ◌≡◌, ◌≢◌, eq_refl,
}

-- A taken endpoint is held by another instance.
pub taken_by :
    (endpoint id : String) (m : Table RouteRecord)
    → HasDistinctKeys m
    → is_taken endpoint id m ≡ true
    → (k : String) × (r : RouteRecord) × (lookup k m ≡ some r) × (r.endpoint ≡ endpoint) × (k ≢ id)
unfolding is_taken lookup
taken_by endpoint id [] d h = cc
taken_by endpoint id ((j, q) ∷ m) d h =
    elim (Bool-cases (str_eq q.endpoint endpoint && not (str_eq j id))) [
      | inl here ↦ (
        j,
        q,
        ground (arith, eq_iff j j),
        ground (arith, eq_iff q.endpoint endpoint),
        ground (arith, eq_iff j id),
      )
      | inr there ↦
          let (k, r, found, same, other) = taken_by endpoint id m d.1 (ground arith) in
          (k, r, ground (arith, eq_iff j k), same, other)
    ]

module _ (operations : Table Operation) (s : RouteSnapshot) (request : Registration)
    (old : RouteRecord) (c : IsConsistent operations s)
    (known : lookup request.id s.records ≡ some old) (alive : old.deleted ≡ false)
    (same_app : request.app ≡ old.app) (same_endpoint : request.endpoint ≡ old.endpoint)
    (deletes : request.deleted ≡ true) where
  own_endpoint_free : is_taken request.endpoint request.id s.records ≡ false
  own_endpoint_free = elim (Bool-cases (is_taken request.endpoint request.id s.records)) [
    | inl taken ↦
        let (k, r, found, same, other) =
          taken_by request.endpoint request.id s.records c.distinct taken in
        absurd (other (c.exclusive k request.id r old found known (same ∙ same_endpoint)))
    | inr free ↦ free
  ]

  pub check-deletion : s.revision < max_revision → check (length operations) s request ≡ ok tt
  unfolding check is_reserved_deletion conflicts is_unknown_or_full
  check-deletion room = rw known (
      ground (
        arith,
        own_endpoint_free,
        eq_iff old.app request.app,
        eq_iff old.endpoint request.endpoint,
      ))

-- However many operations are stored, a deletion of a live instance under its own application and
-- endpoint, with a new operation identity, is recorded when no call of the database fails, the stored
-- snapshot is consistent with the operations, its revision is below the maximum and the next snapshot
-- can be encoded: the answer is the next revision, with which the stored snapshot has the instance as
-- deleted and the operation has its row.
pub deletion_succeeds :
    {Blob : Type 0} (p : Platform Blob) (db : Database Blob) (s : RouteSnapshot)
    (request : Registration) (old : RouteRecord) (encoded : Blob)
    → snapshot p db ≡ some s
    → IsConsistent db.operations s
    → lookup request.operation db.operations ≡ none
    → lookup request.id s.records ≡ some old
    → old.deleted ≡ false
    → request.app ≡ old.app
    → request.endpoint ≡ old.endpoint
    → request.deleted ≡ true
    → s.revision < max_revision
    → p.encode (record_request s request) ≡ some encoded
    → let after = (register p no_faults db request).0 in
      ((register p no_faults db request).1 ≡ ok (s.revision + 1))
      × (snapshot p after ≡ some (record_request s request))
      × (lookup request.id (record_request s request).records
          ≡ some (record {
            id = request.id;
            app = old.app;
            endpoint = old.endpoint;
            revision = s.revision + 1;
            deleted = true;
          }))
      × (lookup request.operation after.operations
          ≡ some (record { request_hash = p.request_hash request; revision = s.revision + 1 }))
unfolding register replay_or_new register_new next_state write_rows finish snapshot
deletion_succeeds p db s request old encoded stored c new known alive app endpoint deletes room e =
    let passed =
      check-deletion db.operations s request old c known alive app endpoint deletes room in
    let admitted = check-Admitted (length db.operations) s request passed in
    let next = revision-record_request (length db.operations) s request admitted in
    let at = lookup-record_request (length db.operations) s request admitted request.id in
    (
      ground (arith, next),
      ground (arith, p.decode-encode (record_request s request) encoded e),
      ground (arith, at, eq_refl request.id),
      ground (
        arith,
        next,
        lookup-insert request.operation request.operation
            (record { request_hash = p.request_hash request; revision = s.revision + 1 })
            db.operations,
        eq_refl request.operation,
      ),
    )
