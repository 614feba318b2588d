-- ===== src/Publication/Verified.antt =====
-- What a worker has observed when it publishes (cmd/worker/serve.go).
use edgelab.Registry.Lives.{wanted}
use edgelab.Shared.Action.{◌>>=◌, ◌>>◌, after_bind, lift}
use edgelab.Publication.Commands.{expected_workload_is}
use edgelab.Registry.{RouteRecord}
use edgelab.Shared.Outcome.{Outcome, ok}
use edgelab.Publication.{
  PublishError, Surroundings, Worker, blank, expected_workload, forget, observe, observed,
  reconcile_record, reconcile_workloads, supervise, Health, check_echo, check_objects, serves,
  text_at,
}
use edgelab.Shared.Table.{HasDistinctKeys, Table, lookup, lookup-insert, lookup-delete}
use edgelab.Management.{Config, Workload, answer}
use edgelab.Shared.{
  Bool-cases, String, [], ap, arith, eq_iff, eq_refl, false, inl, inr, none, refl, some, str_eq,
  subst, true, ◌∙◌, ◌∷◌, ◌≡◌, Option-cases,
}

-- What the instance has answered: an object store's health that names it as the owner, or an echo's
-- greeting with its application, its own name, its worker and its version.
pub data HasAnswered (env : Surroundings) (id owner : String) (x : Workload) (r : RouteRecord)
    : Type 0 where
  as_objects :
      (h : Health)
      → x.kind ≡ "objects"
      → env.health x.endpoint ≡ some h
      → h.status ≡ 200
      → text_at "owner" h.identity ≡ id
      → HasAnswered env id owner x r
  as_echo :
      (m : Table String)
      → x.kind ≡ "echo"
      → env.greeting x.endpoint ≡ some m
      → text_at "app" m ≡ r.app
      → text_at "instance" m ≡ id
      → text_at "worker" m ≡ owner
      → text_at "version" m ≡ x.version
      → HasAnswered env id owner x r

module _ (config : Config) (env : Surroundings) (owner : String) where
  -- A live instance is the configured one, has answered as such and is noted as verified; a deleted
  -- one is not observed.
  abbrev pub IsObserved : Worker → String → RouteRecord → Type 0
  IsObserved w id r =
      (r.deleted ≡ false
        → (x : Workload) × (lookup id config.workloads ≡ some x)
          × HasAnswered env id owner x r
          × (lookup id w.identities ≡ some (observed config env id x r)))
      × (r.deleted ≡ true → lookup id w.identities ≡ none)

  serves-HasAnswered :
      (id : String) (x : Workload) (r : RouteRecord)
      → serves config env id owner x r ≡ ok tt
      → HasAnswered env id owner x r
  unfolding serves check_objects check_echo
  serves-HasAnswered id x r h = elim (Bool-cases (str_eq x.kind "objects")) [
    | inl objects ↦ elim (Option-cases (env.health x.endpoint)) [
      | inl e ↦ absurd (ground arith)
      | inr (answer, e) ↦
          as_objects answer ((eq_iff x.kind "objects").0 objects) e (ground arith)
            (ground (arith, eq_iff (text_at "owner" answer.identity) id))
    ]
    | inr other ↦ elim (Option-cases (env.greeting x.endpoint)) [
      | inl e ↦ absurd (ground arith)
      | inr (m, e) ↦
          as_echo m (ground (arith, eq_iff x.kind "echo")) e
            (ground (arith, eq_iff (text_at "app" m) r.app))
            (ground (arith, eq_iff (text_at "instance" m) id))
            (ground (arith, eq_iff (text_at "worker" m) owner))
            (ground (arith, eq_iff (text_at "version" m) x.version))
    ]
  ]

  identities-forget :
      (id wanted : String) (r : RouteRecord) (w : Worker)
      → str_eq id wanted ≡ false
      → lookup wanted (forget config env id r w).0.identities ≡ lookup wanted w.identities
  unfolding forget
  identities-forget id wanted r w other =
      ground (arith, lookup-insert id wanted (blank config env) w.identities)

  identities-supervise :
      (x : Workload) (r : RouteRecord) (w : Worker)
      → (supervise config env x r w).0.identities ≡ w.identities
  unfolding supervise
  identities-supervise x r w = ground arith

  identities-observe :
      (id wanted : String) (x : Workload) (r : RouteRecord) (w : Worker)
      → str_eq id wanted ≡ false
      → lookup wanted (observe config env id owner x r w).0.identities ≡ lookup wanted w.identities
  unfolding observe
  identities-observe id wanted x r w other = ground (
    arith,
    lookup-insert id wanted (observed config env id x r) w.identities,
    lookup-delete id wanted w.identities,
  )

  observe_ok :
      (id : String) (x : Workload) (r : RouteRecord) (w : Worker)
      → lookup id config.workloads ≡ some x
      → (observe config env id owner x r w).1 ≡ ok tt
      → IsObserved (observe config env id owner x r w).0 id r
  unfolding observe
  observe_ok id x r w has h = (
    λ alive. (
      x,
      has,
      serves-HasAnswered id x r (ground arith),
      ground (arith, lookup-insert id id (observed config env id x r) w.identities, eq_refl id),
    ),
    λ gone. ground (arith, lookup-delete id id w.identities, eq_refl id),
  )

  identities-record :
      (id wanted : String) (r : RouteRecord) (w : Worker)
      → str_eq id wanted ≡ false
      → lookup wanted (reconcile_record config env owner id r w).0.identities
        ≡ lookup wanted w.identities
  unfolding reconcile_record
  identities-record id wanted r w other =
      let P = λ (z : Worker × Outcome PublishError (Unit {0})).
        lookup wanted z.0.identities ≡ lookup wanted w.identities in
      let w₁ = (forget config env id r w).0 in
      let e₁ = identities-forget id wanted r w other in
      after_bind P (forget config env id r)
        (λ u. lift (expected_workload (lookup id config.workloads) r) >>= λ x.
          supervise config env x r >> observe config env id owner x r)
        w (λ e h. e₁)
        (λ u h.
          after_bind P (lift (expected_workload (lookup id config.workloads) r))
            (λ x. supervise config env x r >> observe config env id owner x r) w₁ (λ e h'. e₁)
            (λ x h'.
              let e₂ = ap (lookup wanted) (identities-supervise x r w₁) ∙ e₁ in
              after_bind P (supervise config env x r) (λ u'. observe config env id owner x r) w₁
                (λ e h''. e₂)
                (λ u' h''.
                  identities-observe id wanted x r (supervise config env x r w₁).0 other ∙ e₂)))

  record_ok :
      (id : String) (r : RouteRecord) (w : Worker)
      → (reconcile_record config env owner id r w).1 ≡ ok tt
      → IsObserved (reconcile_record config env owner id r w).0 id r
  unfolding reconcile_record
  record_ok id r w =
      let P = λ (z : Worker × Outcome PublishError (Unit {0})). z.1 ≡ ok tt → IsObserved z.0 id r in
      let w₁ = (forget config env id r w).0 in
      after_bind P (forget config env id r)
        (λ u. lift (expected_workload (lookup id config.workloads) r) >>= λ x.
          supervise config env x r >> observe config env id owner x r)
        w (λ e h bad. cc)
        (λ u h.
          after_bind P (lift (expected_workload (lookup id config.workloads) r))
            (λ x. supervise config env x r >> observe config env id owner x r) w₁ (λ e h' bad. cc)
            (λ x h'.
              after_bind P (supervise config env x r) (λ u'. observe config env id owner x r) w₁
                (λ e h'' bad. cc)
                (λ u' h''.
                  observe_ok id x r (supervise config env x r w₁).0
                    (expected_workload_is (lookup id config.workloads) r x h').0)))

  identities-reconcile :
      (wanted : String) (records : Table RouteRecord) (w : Worker)
      → lookup wanted records ≡ none
      → lookup wanted (reconcile_workloads config env owner records w).0.identities
        ≡ lookup wanted w.identities
  unfolding reconcile_workloads lookup
  identities-reconcile wanted [] w no_row = refl
  identities-reconcile wanted ((id, r) ∷ rest) w no_row =
      let first = identities-record id wanted r w (ground arith) in
      after_bind (λ z. lookup wanted z.0.identities ≡ lookup wanted w.identities)
        (reconcile_record config env owner id r) (λ u. reconcile_workloads config env owner rest) w
        (λ e h. first)
        (λ u h.
          identities-reconcile wanted rest (reconcile_record config env owner id r w).0
            (ground arith)
          ∙ first)

  -- The instances are observed as the records say.
  abbrev pub AreObserved : Worker → Table RouteRecord → Type 0
  AreObserved w records =
      (id : String) (r : RouteRecord) → lookup id records ≡ some r → IsObserved w id r

  AreObserved-cons :
      (w w' : Worker) (id : String) (r : RouteRecord) (rest : Table RouteRecord)
      → IsObserved w id r
      → lookup id w'.identities ≡ lookup id w.identities
      → AreObserved w' rest
      → AreObserved w' ((id, r) ∷ rest)
  unfolding lookup
  AreObserved-cons w w' id r rest (there, gone) kept others k q known =
      elim (Bool-cases (str_eq id k)) [
        | inr other ↦ others k q (ground arith)
        | inl same ↦
            let is_k : id ≡ k = (eq_iff id k).0 same in
            let is_q : r ≡ q = ground arith in
            subst (λ z. IsObserved w' k z) is_q
              (subst (λ z. IsObserved w' z r) is_k
                (
                  λ l. let (x, has, heard, e) = there l in (x, has, heard, kept ∙ e),
                  λ d. kept ∙ gone d,
                ))
      ]

  -- A reconciliation that succeeds has verified every live instance of the snapshot: its
  -- configured workload has answered as that instance, of that application, worker and version, or
  -- as the owner of its object store, and the instance is noted so. No deleted one is observed. The
  -- records have distinct identities.
  pub reconcile_workloads-AreObserved :
      (records : Table RouteRecord) (w : Worker)
      → HasDistinctKeys records
      → (reconcile_workloads config env owner records w).1 ≡ ok tt
      → AreObserved (reconcile_workloads config env owner records w).0 records
  unfolding reconcile_workloads lookup
  reconcile_workloads-AreObserved [] w distinct = λ h id r known. ground arith
  reconcile_workloads-AreObserved ((id, r) ∷ rest) w (no_row, distinct) =
      let w₁ = (reconcile_record config env owner id r w).0 in
      after_bind (λ z. z.1 ≡ ok tt → AreObserved z.0 ((id, r) ∷ rest))
        (reconcile_record config env owner id r) (λ u. reconcile_workloads config env owner rest) w
        (λ e h bad. cc)
        (λ u h done.
          AreObserved-cons w₁ (reconcile_workloads config env owner rest w₁).0 id r rest
            (record_ok id r w h) (identities-reconcile id rest w₁ no_row)
            (reconcile_workloads-AreObserved rest w₁ distinct done))
