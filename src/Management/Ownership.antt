-- ===== src/Management/Ownership.antt =====
-- A worker registers its own workloads only (cmd/worker/serve.go).
use edgelab.Registry.Rollback.{register_error_unchanged}
use edgelab.Management.Access.{post_instances_cases}
use edgelab.Registry.Invariant.{lookup-record_request, IsValid, register-IsValid}
use edgelab.Shared.Outcome.{ok, Outcome-cases, Outcome, err}
use edgelab.Shared.Table.{Table, lookup}
use edgelab.Registry.Registered.{Registered, recorded, replayed, Admitted, register_ok}
use edgelab.Shared.{
  Option-cases, String, arith, eq_iff, inl, inr, some, true, ℕ, ◌≡◌, Bool-cases, List, [], length,
  str_eq, subst, ◌∷◌, refl,
}
use edgelab.Registry.{
  Database, Platform, Registration, RouteRecord, RouteSnapshot, record_request, snapshot, Faults,
  register, RegisterError,
}
use edgelab.Management.{
  Config, Decoders, Workload, is_configured, validate, Guard, HttpRequest, answer, post_instances,
}

-- The instance, application and endpoint are those of a configured workload.
abbrev pub IsWorkload : Config → String → String → String → Type 0
IsWorkload config id app endpoint =
    (w : Workload) × (lookup id config.workloads ≡ some w) × (w.app ≡ app) × (w.endpoint ≡ endpoint)

-- Every record is of a configured workload.
abbrev pub IsOwned : Config → RouteSnapshot → Type 0
IsOwned config s =
    (k : String) (r : RouteRecord)
    → lookup k s.records ≡ some r
    → IsWorkload config k r.app r.endpoint

is_configured-IsWorkload :
    (config : Config) (id app endpoint : String)
    → is_configured (lookup id config.workloads) app endpoint ≡ true
    → IsWorkload config id app endpoint
unfolding is_configured
is_configured-IsWorkload config id app endpoint h =
    elim (Option-cases (lookup id config.workloads)) [
      | inl e ↦ absurd (ground arith)
      | inr (w, e) ↦
          (w, e, ground (arith, eq_iff w.app app), ground (arith, eq_iff w.endpoint endpoint))
    ]

record_request-IsOwned :
    (config : Config) (count : ℕ) (state : RouteSnapshot) (request : Registration)
    → Admitted count state request
    → IsWorkload config request.id request.app request.endpoint
    → IsOwned config state
    → IsOwned config (record_request state request)
record_request-IsOwned config count state request a (w, known, app, endpoint) o k q h =
    elim (Bool-cases (str_eq request.id k)) [
      | inl same ↦ (
        w,
        ground (arith, eq_iff request.id k),
        ground (arith, lookup-record_request count state request a k),
        ground (arith, lookup-record_request count state request a k),
      )
      | inr other ↦ o k q (ground (arith, lookup-record_request count state request a k))
    ]

module _ {Body Blob : Type 0} (d : Decoders Body) (config : Config) (allowed : Table (Unit {0}))
    (p : Platform Blob) where
  -- A request that passes is of a configured workload.
  validate-IsWorkload :
      (body : Body) (request : Registration)
      → validate d config allowed body ≡ ok request
      → IsWorkload config request.id request.app request.endpoint
  unfolding validate
  validate-IsWorkload body request h = elim (Option-cases (d.registration body)) [
    | inl e ↦ absurd (ground arith)
    | inr (read, e) ↦ elim (Option-cases (d.addr_port read.endpoint)) [
      | inl e' ↦ absurd (ground arith)
      | inr (address, e') ↦
          let same : request ≡ record read { endpoint = address.canonical } = ground arith in
          rw same
            (is_configured-IsWorkload config read.id read.app address.canonical (ground arith))
    ]
  ]

  Registered-IsOwned :
      (db : Database Blob) (request : Registration) {db' : Database Blob} {revision : ℕ}
      → IsWorkload config request.id request.app request.endpoint
      → Registered p db request db' revision
      → (s : RouteSnapshot) → snapshot p db ≡ some s
      → IsOwned config s
      → (s' : RouteSnapshot) × (snapshot p db' ≡ some s') × IsOwned config s'
  unfolding snapshot
  Registered-IsOwned db request w (replayed old e same r unchanged) s h o = (s, rw unchanged h, o)
  Registered-IsOwned db request w (recorded blob encoded state new row decoded a e r after) s h o =
      let same : s ≡ state = ground arith in
      (
        record_request state request,
        rw after (p.decode-encode _ _ e),
        record_request-IsOwned config (length db.operations) state request a w
            (subst (IsOwned config) same o),
      )

  -- The stored snapshot decodes to one whose every record is of a configured workload.
  abbrev pub HasOwnedRecords : Database Blob → Type 0
  HasOwnedRecords db = (s : RouteSnapshot) × (snapshot p db ≡ some s) × IsOwned config s

  pub register-HasOwnedRecords :
      (f : Faults) (db : Database Blob) (request : Registration)
      → IsWorkload config request.id request.app request.endpoint
      → HasOwnedRecords db
      → HasOwnedRecords (register p f db request).0
  register-HasOwnedRecords f db request w (s, h, o) =
      elim (Outcome-cases (register p f db request).1) [
        | inr (x, e) ↦ (s, rw (register_error_unchanged p f db request e) h, o)
        | inl (revision, e) ↦ Registered-IsOwned db request w (register_ok p f db request e) s h o
      ]

  fst-answer : (x : Database Blob × Outcome RegisterError ℕ) → (answer d config allowed p x).0 ≡ x.0
  unfolding answer
  fst-answer (db, ok revision) = refl
  fst-answer (db, err e) = refl

  -- A call changes the registry as `register` does, or not at all.
  pub post_instances-keeps :
      (P : Database Blob → Type 0) (f : Faults) (guard : Guard) (db : Database Blob)
      (r : HttpRequest Body)
      → P db
      → ((request : Registration)
          → IsWorkload config request.id request.app request.endpoint
          → P (register p f db request).0)
      → P (post_instances d config allowed p f guard db r).0
  post_instances-keeps P f guard db r h step =
      elim (post_instances_cases d config allowed p f guard db r) [
        | inl (status, e) ↦ rw e h
        | inr (admitted, (request, valid, e)) ↦
            rw (e, fst-answer) (step request (validate-IsWorkload r.body request valid))
      ]

  -- A history of calls of `/instances`, each with the faults and the guard that it meets.
  unfoldable serve_calls : Database Blob → List (Faults × Guard × HttpRequest Body) → Database Blob
  serve_calls db [] = db
  serve_calls db ((f, guard, r) ∷ rest) =
      serve_calls (post_instances d config allowed p f guard db r).0 rest

  -- Through any calls, admitted or not, and any failures, a valid registry stays valid, and one
  -- whose every record is of a configured workload stays so.
  serve_calls-IsOwned :
      (db : Database Blob) (calls : List (Faults × Guard × HttpRequest Body))
      → IsValid p db
      → HasOwnedRecords db
      → IsValid p (serve_calls db calls) × HasOwnedRecords (serve_calls db calls)
  unfolding serve_calls
  serve_calls-IsOwned db [] v o = (v, o)
  serve_calls-IsOwned db ((f, guard, r) ∷ rest) v o =
      serve_calls-IsOwned (post_instances d config allowed p f guard db r).0 rest
        (post_instances-keeps (IsValid p) f guard db r v
          (λ request w. register-IsValid p f db request v))
        (post_instances-keeps HasOwnedRecords f guard db r o
          (λ request w. register-HasOwnedRecords f db request w o))
