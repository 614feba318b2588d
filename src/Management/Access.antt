-- ===== src/Management/Access.antt =====
-- Who may change or read the registry over HTTP (cmd/worker/serve.go).
use edgelab.Shared.Table.{Table}
use edgelab.Shared.Outcome.{Outcome-cases, err, ok}
use edgelab.Registry.{Database, Faults, Platform, Registration, RouteSnapshot, register, snapshot}
use edgelab.Registry.Rollback.{register_error_unchanged}
use edgelab.Registry.Registered.{Registered, register_ok}
use edgelab.Management.{
  Config, Decoders, Guard, HttpRequest, absent, admit, answer, get_snapshot, post_instances,
  validate,
}
use edgelab.Shared.{
  eq_iff, String, arith, inl, inr, some, ℕ, ◌↔◌, ◌≡◌, ◌⊎◌, str_append, ap, subst, sym,
}

-- A call that names the method, carries the token, and comes outside of a restoration.
pub record IsAdmitted {Body : Type 0} (method token : String) (guard : Guard) (r : HttpRequest Body)
    : Type 0 where
  pub right_method : r.method ≡ method
  pub right_token : r.authorization ≡ str_append "Bearer " token
  pub not_restoring : guard ≡ absent

pub admit-IsAdmitted :
    {Body : Type 0} (method token : String) (guard : Guard) (r : HttpRequest Body)
    → (admit method token guard r ≡ ok tt) ↔ IsAdmitted method token guard r
unfolding admit
admit-IsAdmitted method token guard r = (
  λ h. ground (arith, eq_iff r.method method, eq_iff r.authorization (str_append "Bearer " token)),
  λ h. ground (arith, eq_iff r.method method, eq_iff r.authorization (str_append "Bearer " token)),
)

module _ {Body Blob : Type 0} (d : Decoders Body) (config : Config) (allowed : Table (Unit {0}))
    (p : Platform Blob) where
  -- The two ways of a call.
  pub post_instances_cases :
      (f : Faults) (guard : Guard) (db : Database Blob) (r : HttpRequest Body)
      → (((status : ℕ) × ((post_instances d config allowed p f guard db r) ≡ (db, err status))))
        ⊎ (IsAdmitted "POST" config.admin_token guard r
            × ((request : Registration) × (validate d config allowed r.body ≡ ok request)
                × (post_instances d config allowed p f guard db r
                    ≡ answer d config allowed p (register p f db request))))
  unfolding post_instances
  post_instances_cases f guard db r =
      elim (Outcome-cases (admit "POST" config.admin_token guard r)) [
        | inr (status, e) ↦ inl (status, ground arith)
        | inl (u, e) ↦ elim (Outcome-cases (validate d config allowed r.body)) [
          | inr (status, e') ↦ inl (status, ground arith)
          | inl (request, e') ↦ inr (
            (admit-IsAdmitted "POST" config.admin_token guard r).0 (ground arith),
            (request, e', ground arith),
          )
        ]
      ]

  -- `/instances` changes the database only in a call that succeeds: a call answers with an error
  -- status and leaves the database as it was, or it was a POST with the administrator's token,
  -- outside of a restoration, its validated request has been registered, as a new operation with every
  -- guard passed or as a replay, and the answer is its revision.
  pub post_instances_guarded :
      (f : Faults) (guard : Guard) (db : Database Blob) (r : HttpRequest Body)
      → ((status : ℕ) × (post_instances d config allowed p f guard db r ≡ (db, err status)))
        ⊎ (IsAdmitted "POST" config.admin_token guard r
            × ((request : Registration) × (validate d config allowed r.body ≡ ok request)
                × ((revision : ℕ) × ((post_instances d config allowed p f guard db r).1
                      ≡ ok revision)
                    × Registered p db request
                        (post_instances d config allowed p f guard db r).0
                        revision)))
  unfolding answer
  post_instances_guarded f guard db r = elim (post_instances_cases f guard db r) [
    | inl refused_call ↦ inl refused_call
    | inr (admitted, (request, valid, same)) ↦ elim (Outcome-cases (register p f db request).1) [
      | inr (e, bad) ↦
          let kept = register_error_unchanged p f db request bad in inl (409, ground arith)
      | inl (n, good) ↦
          let done : post_instances d config allowed p f guard db r
              ≡ ((register p f db request).0, ok n) =
            ground arith in
          inr (
            admitted,
            (
              request,
              valid,
              (
                n,
                ap (λ z. z.1) done,
                subst (λ z. Registered p db request z n) (sym (ap (λ z. z.0) done))
                    (register_ok p f db request good),
              ),
            ),
          )
    ]
  ]

  -- `/snapshot` gives out the stored snapshot, and nothing else, exactly to a GET with the owner's
  -- token outside of a restoration.
  get_snapshot_iff :
      (guard : Guard) (db : Database Blob) (r : HttpRequest Body) (s : RouteSnapshot)
      → (get_snapshot d config allowed p guard db r ≡ ok s)
        ↔ (IsAdmitted "GET" config.token guard r × (snapshot p db ≡ some s))
  unfolding get_snapshot
  get_snapshot_iff guard db r s = (
    λ h. ((admit-IsAdmitted "GET" config.token guard r).0 (ground arith), ground arith),
    λ h. rw ((admit-IsAdmitted "GET" config.token guard r).1 h.0, h.1),
  )
