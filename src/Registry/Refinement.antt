-- ===== src/Registry/Refinement.antt =====
-- The registry (cmd/worker/serve.go) does what its abstract view allows, and all of that.
use edgelab.Registry.Rollback.{register_error_unchanged}
use edgelab.Shared.Outcome.{Outcome-cases, ok}
use mathlib.Core.Path.{fun_ext}
use edgelab.Shared.Table.{Table, lookup}
use edgelab.Registry.{
  Operation, Registration, RouteRecord, RouteSnapshot, conflicts, is_unknown_or_full,
  record_request, Database, Faults, Platform, check, is_taken, max_operations, max_records,
  max_revision, register, snapshot,
}
use edgelab.Shared.{
  Bool-cases, Option-cases, String, arith, eq_iff, if◌then◌else◌, inl, inr, length, some, str_eq,
  subst, ◌≡◌, Bool, List, [], ap, false, refl, sym, true, ℕ, ◌<◌, ◌↔◌, ◌∙◌, ◌∷◌, ◌⊎◌,
}
use edgelab.Registry.Registered.{
  Admitted, check-Admitted, Registered, recorded, replayed, register_ok,
}
use edgelab.Registry.Lives.{
  Allows, HasEndpoint, Step, life_of, lives, retired, retires, serves, serving, starts, view,
  wanted, Follows,
}
use mathlib.Core.List.{map}
use edgelab.Registry.Deletion.{taken_by}
use edgelab.Registry.History.{serve_requests}
use edgelab.Registry.Invariant.{
  IsConsistent, IsValid, lookup-record_request, not_taken, register-IsValid,
}

HasEndpoint-if :
    (b : Bool) (app e endpoint : String)
    → HasEndpoint (if b then retired app e else serving app e) endpoint
    → e ≡ endpoint
HasEndpoint-if true app e endpoint h = h
HasEndpoint-if false app e endpoint h = h

HasEndpoint-life_of : (r : RouteRecord) → HasEndpoint (life_of (some r)) r.endpoint
unfolding life_of
HasEndpoint-life_of r = elim (Bool-cases r.deleted) [
  | inl gone ↦ rw gone refl
  | inr there ↦ rw there refl
]

module _ (operations : Table Operation) (s : RouteSnapshot) (request : Registration)
    (c : IsConsistent operations s) where
  HasEndpoint-record :
      (k endpoint : String)
      → HasEndpoint (view s k) endpoint
      → (r : RouteRecord) × (lookup k s.records ≡ some r) × (r.endpoint ≡ endpoint)
  unfolding view life_of
  HasEndpoint-record k endpoint h = elim (Option-cases (lookup k s.records)) [
    | inl e ↦ absurd (subst (λ o. HasEndpoint (life_of o) endpoint) e h)
    | inr (r, e) ↦ (
      r,
      e,
      HasEndpoint-if r.deleted r.app r.endpoint endpoint
          (subst (λ o. HasEndpoint (life_of o) endpoint) e h),
    )
  ]

  Allows-Admitted : Admitted (length operations) s request → Allows (view s) request
  unfolding view life_of is_unknown_or_full conflicts
  Allows-Admitted a = elim (Option-cases (lookup request.id s.records)) [
    | inl e ↦ starts (ground (arith, a.is_known)) (ground arith) (λ k h.
        let (r, found, same) = HasEndpoint-record k request.endpoint h in
        not_taken request.endpoint request.id k r s.records a.is_free found same)
    | inr (old, e) ↦ elim (Bool-cases old.deleted) [
      | inl gone ↦ retires (ground (arith, a.agrees)) (
          ground
            (arith, a.agrees, eq_iff old.app request.app, eq_iff old.endpoint request.endpoint))
      | inr there ↦ serves (
          ground
            (arith, a.agrees, eq_iff old.app request.app, eq_iff old.endpoint request.endpoint))
    ]
  ]

  view-record_request :
      Admitted (length operations) s request
      → view (record_request s request)
        ≡ (λ k. if str_eq request.id k then wanted request else view s k)
  unfolding view life_of
  view-record_request a =
      fun_ext λ k. ground (arith, lookup-record_request (length operations) s request a k)

  endpoint_owner :
      Allows (view s) request
      → (k : String) (r : RouteRecord) → lookup k s.records ≡ some r
      → r.endpoint ≡ request.endpoint
      → k ≡ request.id
  unfolding view
  endpoint_owner (starts new unknown_one free) k r found same = free k (
      subst (λ e. HasEndpoint (view s k) e) same
        (subst (λ o. HasEndpoint (life_of o) r.endpoint) (sym found) (HasEndpoint-life_of r)))
  endpoint_owner (serves e) k r found same =
      let (q, found', same') =
        HasEndpoint-record request.id request.endpoint
          (subst (λ l. HasEndpoint l request.endpoint) (sym e) refl) in
      c.exclusive k request.id r q found found' (same ∙ sym same')
  endpoint_owner (retires gone e) k r found same =
      let (q, found', same') =
        HasEndpoint-record request.id request.endpoint
          (subst (λ l. HasEndpoint l request.endpoint) (sym e) refl) in
      c.exclusive k request.id r q found found' (same ∙ sym same')

  own_or_free : Allows (view s) request → is_taken request.endpoint request.id s.records ≡ false
  unfolding view
  own_or_free allowed = elim (Bool-cases (is_taken request.endpoint request.id s.records)) [
    | inr free ↦ free
    | inl taken ↦
        let (k, r, found, same, other) =
          taken_by request.endpoint request.id s.records c.distinct taken in
        absurd (other (endpoint_owner allowed k r found same))
  ]

  check_allowed :
      length operations < max_operations
      → length s.records < max_records
      → s.revision < max_revision
      → Allows (view s) request
      → check (length operations) s request ≡ ok tt
  unfolding check view life_of conflicts is_unknown_or_full
  check_allowed few small low (starts new e free) =
      elim (Option-cases (lookup request.id s.records)) [
        | inl e' ↦ rw e' (ground (arith, own_or_free (starts new e free)))
        | inr (old, e') ↦ absurd (ground arith)
      ]
  check_allowed few small low (serves e) = elim (Option-cases (lookup request.id s.records)) [
    | inl e' ↦ absurd (ground arith)
    | inr (old, e') ↦ rw e' (
        ground (
          arith,
          own_or_free (serves e),
          eq_iff old.app request.app,
          eq_iff old.endpoint request.endpoint,
        ))
  ]
  check_allowed few small low (retires gone e) = elim (Option-cases (lookup request.id s.records)) [
    | inl e' ↦ absurd (ground arith)
    | inr (old, e') ↦ rw e' (
        ground (
          arith,
          own_or_free (retires gone e),
          eq_iff old.app request.app,
          eq_iff old.endpoint request.endpoint,
        ))
  ]

  -- Where the snapshot is consistent with the stored operations, and there are fewer operations,
  -- records and revisions than their maximum, the code's guards let a request through exactly if the
  -- view allows it.
  pub check_iff :
      length operations < max_operations
      → length s.records < max_records
      → s.revision < max_revision
      → (check (length operations) s request ≡ ok tt) ↔ Allows (view s) request
  check_iff few small low = (
    λ h. Allows-Admitted (check-Admitted (length operations) s request h),
    check_allowed few small low,
  )

module _ {Blob : Type 0} (p : Platform Blob) where
  lives-Registered :
      (db : Database Blob) (request : Registration) {db' : Database Blob} {revision : ℕ}
      → IsValid p db
      → Registered p db request db' revision
      → (lives p db' ≡ lives p db) ⊎ Step (lives p db) request (lives p db')
  unfolding lives snapshot
  lives-Registered db request {db' = db'} v (replayed old e same r unchanged) =
      inl (ap (lives p) unchanged)
  lives-Registered db request {db' = db'} (s, h, c)
        (recorded blob encoded state new row decoded a e r after) =
      let same : state ≡ s = ground arith in
      let before : lives p db ≡ view state = ground arith in
      let c' = subst (IsConsistent db.operations) (sym same) c in
      let later : lives p db' ≡ view (record_request state request) =
        ap (lives p) after
        ∙ ground (arith, p.decode-encode (record_request state request) encoded) in
      inr (
        subst (λ f. Allows f request) (sym before)
            (Allows-Admitted db.operations state request c' a),
        later
            ∙ view-record_request db.operations state request c' a
            ∙ ap (λ f k. if str_eq request.id k then wanted request else f k) (sym before),
      )

  -- What users see of a valid registry changes only as the view allows: through any history of
  -- requests and failures, each request is a step of the view or changes nothing.
  pub serve_requests-Follows :
      (db : Database Blob) (history : List (Faults × Registration))
      → IsValid p db
      → Follows (lives p db) (map (λ q. q.1) history) (lives p (serve_requests p db history))
  unfolding serve_requests
  serve_requests-Follows db [] v = refl
  serve_requests-Follows db ((f, request) ∷ rest) v =
      let db' = (register p f db request).0 in
      let taken : (lives p db' ≡ lives p db) ⊎ Step (lives p db) request (lives p db') =
        elim (Outcome-cases (register p f db request).1) [
          | inl (revision, e) ↦ lives-Registered db request v (register_ok p f db request e)
          | inr (x, e) ↦ inl (ap (lives p) (register_error_unchanged p f db request e))
        ] in
      (lives p db', taken, serve_requests-Follows db' rest (register-IsValid p f db request v))
