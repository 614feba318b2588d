-- ===== src/Registry/Identity.antt =====
-- What a registration never takes back (cmd/worker/serve.go): the identity of an instance, its
-- endpoint, and its deletion.

use edgelab.Registry.Rollback.{register_error_unchanged}
use edgelab.Shared.Outcome.{Outcome-cases}
use edgelab.Registry.Invariant.{revision-record_request, lookup-record_request}
use edgelab.Shared.Table.{lookup}
use edgelab.Shared.{
  String, arith, eq_iff, false, refl, some, true, ℕ, ◌∙◌, ◌≡◌, ◌≤◌, Bool-cases, inl, inr, str_eq,
  subst, ◌+◌,
}
use edgelab.Registry.{
  Registration, RouteRecord, RouteSnapshot, conflicts, record_request, Database, Faults, Platform,
  new_record, register, snapshot,
}
use edgelab.Registry.Registered.{Admitted, Registered, recorded, replayed, register_ok}

-- `s'` is a later snapshot of the same owner.
pub record Extends (s s' : RouteSnapshot) : Type 0 where
  pub owner_kept : s'.owner ≡ s.owner
  pub incarnation_kept : s'.incarnation ≡ s.incarnation
  pub revision_grows : s.revision ≤ s'.revision
  pub record_kept :
      (k : String) (r : RouteRecord)
      → lookup k s.records ≡ some r
      → (r' : RouteRecord) × (lookup k s'.records ≡ some r')
        × (r'.app ≡ r.app)
        × (r'.endpoint ≡ r.endpoint)
        × (r.deleted ≡ true → r'.deleted ≡ true)

pub Extends-refl : (s : RouteSnapshot) → Extends s s
Extends-refl s = record {
  owner_kept = refl;
  incarnation_kept = refl;
  revision_grows = omega arith;
  record_kept = λ k r h. (r, h, refl, refl, λ d. d);
}

pub Extends-trans : {s t u : RouteSnapshot} → Extends s t → Extends t u → Extends s u
Extends-trans e f = record {
  owner_kept = f.owner_kept ∙ e.owner_kept;
  incarnation_kept = f.incarnation_kept ∙ e.incarnation_kept;
  revision_grows = omega (arith, e.revision_grows, f.revision_grows);
  record_kept = λ k r h.
      let (q, hq, app, endpoint, deleted) = e.record_kept k r h in
      let (q', hq', app', endpoint', deleted') = f.record_kept k q hq in
      (q', hq', app' ∙ app, endpoint' ∙ endpoint, λ d. deleted' (deleted d));
}

-- A record that does not conflict with a request has its identity, and is deleted only for good.
pub not_conflicting :
    (old : RouteRecord) (request : Registration)
    → conflicts (some old) request ≡ false
    → (request.app ≡ old.app)
      × (request.endpoint ≡ old.endpoint)
      × (old.deleted ≡ true → request.deleted ≡ true)
unfolding conflicts
not_conflicting old request h =
    ground (arith, eq_iff old.app request.app, eq_iff old.endpoint request.endpoint)

record_request-Extends :
    (count : ℕ) (state : RouteSnapshot) (request : Registration)
    → Admitted count state request
    → Extends state (record_request state request)
record_request-Extends count state request a = record {
  owner_kept = unfold record_request in refl;
  incarnation_kept = unfold record_request in refl;
  revision_grows = omega (arith, revision-record_request count state request a);
  record_kept = λ k r h. elim (Bool-cases (str_eq request.id k)) [
    | inl same ↦
        let (app, endpoint, deleted) =
          not_conflicting r request (ground (arith, a.agrees, eq_iff request.id k)) in
        (new_record request (state.revision + 1), lookup_new k same, app, endpoint, deleted)
    | inr other ↦ (r, lookup_old k other h, refl, refl, λ d. d)
  ];
}
  where
    lookup_new :
        (k : String)
        → str_eq request.id k ≡ true
        → lookup k (record_request state request).records
          ≡ some (new_record request (state.revision + 1))
    lookup_new k same = rw (lookup-record_request count state request a k, same)

    lookup_old :
        (k : String) {r : RouteRecord}
        → str_eq request.id k ≡ false
        → lookup k state.records ≡ some r
        → lookup k (record_request state request).records ≡ some r
    lookup_old k other h = rw (lookup-record_request count state request a k, other) h

module _ {Blob : Type 0} (p : Platform Blob) where
  Registered-Extends :
      (db : Database Blob) (request : Registration) (s : RouteSnapshot) {db' : Database Blob}
      {revision : ℕ}
      → snapshot p db ≡ some s
      → Registered p db request db' revision
      → (s' : RouteSnapshot) × (snapshot p db' ≡ some s') × Extends s s'
  unfolding snapshot
  Registered-Extends db request s h (replayed old e same r unchanged) =
      (s, rw unchanged h, Extends-refl s)
  Registered-Extends db request s h (recorded blob encoded state new row decoded a e r after) = (
    record_request state request,
    rw after (p.decode-encode _ _ e),
    subst (λ t. Extends t (record_request state request)) (ground arith)
        (record_request-Extends _ state request a),
  )

  -- Any request, whatever fails under it, leaves a snapshot that extends the one before.
  pub register-Extends :
      (f : Faults) (db : Database Blob) (request : Registration) (s : RouteSnapshot)
      → snapshot p db ≡ some s
      → (s' : RouteSnapshot) × (snapshot p (register p f db request).0 ≡ some s') × Extends s s'
  register-Extends f db request s h = elim (Outcome-cases (register p f db request).1) [
    | inl (revision, e) ↦
        Registered-Extends db request s {revision = revision} h (register_ok p f db request e)
    | inr (x, e) ↦ (s, rw (register_error_unchanged p f db request e) h, Extends-refl s)
  ]
