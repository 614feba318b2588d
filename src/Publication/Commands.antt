-- ===== src/Publication/Commands.antt =====
-- Which commands a worker gives to its supervisor (cmd/worker/serve.go).
use edgelab.Shared.Action.{after_bind, lift, ◌>>=◌, ◌>>◌}
use edgelab.Shared.Table.{Table, lookup}
use edgelab.Shared.Outcome.{Outcome, ok, Outcome-cases, err}
use mathlib.Core.List.{Memᴰ}
use edgelab.Shared.{
  List, Option, String, [], ap, arith, eq_iff, if◌then◌else◌, inl, inr, none, refl, some, subst,
  true, ◌∙◌, ◌∷◌, ◌≡◌, ◌⊎◌, Bool-cases, Option-cases, not, ◌||◌,
}
use edgelab.Registry.{Database, Platform, RouteRecord, RouteSnapshot, snapshot}
use edgelab.Management.{Config, Workload, is_restoring}
use edgelab.Publication.{
  Command, PublishError, Surroundings, Worker, expected_workload, forget, is_lab_unit, observe,
  publish, publish_round, reconcile_record, reconcile_workloads, start, stop, supervise, note,
}

-- The command that a record of the snapshot calls for: of the unit that the configuration gives to
-- the same instance, application and endpoint, a unit of the lab; a stop only for a deletion.
abbrev pub IsCalledFor : Config → Table RouteRecord → Command → Type 0
IsCalledFor config records command =
    (id : String) × (r : RouteRecord) × (x : Workload) × (Memᴰ (id, r) records)
    × (lookup id config.workloads ≡ some x)
    × (x.app ≡ r.app)
    × (x.endpoint ≡ r.endpoint)
    × (is_lab_unit x.unit ≡ true)
    × (command ≡ record { action = if r.deleted then stop else start; unit = x.unit })

-- Each command was there already, or is called for.
abbrev pub OnlyAdds : Config → Table RouteRecord → Worker → Worker → Type 0
OnlyAdds config records w w' =
    (command : Command)
    → Memᴰ command w'.commands
    → Memᴰ command w.commands ⊎ IsCalledFor config records command

pub expected_workload_is :
    (o : Option Workload) (r : RouteRecord) (x : Workload)
    → expected_workload o r ≡ ok x
    → (o ≡ some x) × (x.app ≡ r.app) × (x.endpoint ≡ r.endpoint) × (is_lab_unit x.unit ≡ true)
unfolding expected_workload
expected_workload_is none r x h = cc
expected_workload_is (some y) r x h = (
  ground arith,
  ground (arith, eq_iff y.app r.app),
  ground (arith, eq_iff y.endpoint r.endpoint),
  ground arith,
)

module _ (config : Config) (env : Surroundings) where
  commands-observe :
      (id owner : String) (x : Workload) (r : RouteRecord) (w : Worker)
      → (observe config env id owner x r w).0.commands ≡ w.commands
  unfolding observe
  commands-observe id owner x r w = ground arith

  commands-forget :
      (id : String) (r : RouteRecord) (w : Worker)
      → (forget config env id r w).0.commands ≡ w.commands
  unfolding forget
  commands-forget id r w = ground arith

  commands-supervise :
      (x : Workload) (r : RouteRecord) (w : Worker)
      → ((supervise config env x r w).0.commands ≡ w.commands)
        ⊎ ((supervise config env x r w).0.commands
            ≡ record { action = if r.deleted then stop else start; unit = x.unit } ∷ w.commands)
  unfolding supervise
  commands-supervise x r w = ground arith

  OnlyAdds-reconcile_record :
      (owner id : String) (r : RouteRecord) (records : Table RouteRecord) (w : Worker)
      → Memᴰ (id, r) records
      → OnlyAdds config records w (reconcile_record config env owner id r w).0
  unfolding reconcile_record
  OnlyAdds-reconcile_record owner id r records w here =
      let P = λ (z : Worker × Outcome PublishError (Unit {0})). OnlyAdds config records w z.0 in
      let w₁ = (forget config env id r w).0 in
      let e₁ = commands-forget id r w in
      after_bind P (forget config env id r)
        (λ u. lift (expected_workload (lookup id config.workloads) r) >>= λ x.
          supervise config env x r >> observe config env id owner x r)
        w (λ e h command m. inl (subst (Memᴰ command) e₁ m))
        (λ u h.
          after_bind P (lift (expected_workload (lookup id config.workloads) r))
            (λ x. supervise config env x r >> observe config env id owner x r) w₁
            (λ e h' command m. inl (subst (Memᴰ command) e₁ m))
            (λ x h'.
              let (has, app, endpoint, lab) =
                expected_workload_is (lookup id config.workloads) r x h' in
              let now : OnlyAdds config records w (supervise config env x r w₁).0 = λ command m.
                elim (commands-supervise x r w₁) [
                  | inl same ↦ inl (subst (Memᴰ command) (same ∙ e₁) m)
                  | inr more ↦
                      elim (subst (Memᴰ command)
                        (more
                          ∙ ap
                              (λ l.
                                record { action = if r.deleted then stop else start; unit = x.unit }
                                ∷ l)
                              e₁)
                        m) [
                          | Memᴰ.head e ↦ inr (id, r, x, here, has, app, endpoint, lab, e)
                          | Memᴰ.tail m' ↦ inl m'
                        ]
                ] in
              after_bind P (supervise config env x r) (λ u'. observe config env id owner x r) w₁
                (λ e h''. now)
                (λ u' h'' command m. now command (
                  subst (Memᴰ command)
                    (commands-observe id owner x r (supervise config env x r w₁).0) m))))

  OnlyAdds-reconcile :
      (owner : String) (rest records : Table RouteRecord) (w : Worker)
      → ((id : String) (r : RouteRecord) → Memᴰ (id, r) rest → Memᴰ (id, r) records)
      → OnlyAdds config records w (reconcile_workloads config env owner rest w).0
  unfolding reconcile_workloads
  OnlyAdds-reconcile owner [] records w among = λ command m. inl m
  OnlyAdds-reconcile owner ((id, r) ∷ rest) records w among =
      let first = OnlyAdds-reconcile_record owner id r records w (among id r (Memᴰ.head refl)) in
      let w' = (reconcile_record config env owner id r w).0 in
      after_bind (λ z. OnlyAdds config records w z.0) (reconcile_record config env owner id r)
        (λ u. reconcile_workloads config env owner rest) w (λ e h. first)
        (λ u h command m.
          elim (OnlyAdds-reconcile owner rest records w' (λ k q x. among k q (Memᴰ.tail x)) command
            m) [ inl before ↦ first command before | inr due ↦ inr due ])

  -- Publishing to a router gives its commands by reconciliation alone.
  commands-publish :
      {Blob : Type 0} (p : Platform Blob) (db : Database Blob) (router : String) (w : Worker)
      (s : RouteSnapshot)
      → snapshot p db ≡ some s
      → ((publish config env p db router w).0.commands ≡ w.commands)
        ⊎ ((publish config env p db router w).0.commands
            ≡ (reconcile_workloads config env s.owner s.records w).0.commands)
  unfolding publish
  commands-publish p db router w s h =
      elim (Bool-cases (is_restoring env.guard || not env.reads_state)) [
        | inl failed ↦ inl (ground arith)
        | inr passed ↦
            inr (elim (Outcome-cases (reconcile_workloads config env s.owner s.records w).1) [
              | inr (e, bad) ↦ ground arith
              | inl (u, good) ↦ elim (Option-cases (p.encode s)) [
                | inl e ↦ ground arith
                | inr (blob, e) ↦ ground arith
              ]
            ])
      ]

  commands-note :
      (router : String) (z : Worker × Outcome PublishError (Unit {0}))
      → (note config env router z).commands ≡ z.0.commands
  unfolding note
  commands-note router (w, ok u) = refl
  commands-note router (w, err e) = refl

  -- Whatever fails in a round, every command that the worker adds is called for by a record of the
  -- registry: it is for the unit of the lab that the configuration gives to the same instance,
  -- application and endpoint, and it is a stop only where the record is deleted.
  pub publish_round-OnlyAdds :
      {Blob : Type 0} (p : Platform Blob) (db : Database Blob) (routers : List String) (w : Worker)
      (s : RouteSnapshot)
      → snapshot p db ≡ some s
      → OnlyAdds config s.records w (publish_round config env p db routers w)
  unfolding publish_round
  publish_round-OnlyAdds p db [] w s h = λ command m. inl m
  publish_round-OnlyAdds p db (router ∷ rest) w s h = λ command m.
      let z = publish config env p db router w in
      elim (publish_round-OnlyAdds p db rest (note config env router z) s h command m) [
        | inr due ↦ inr due
        | inl before ↦
            let sent = subst (Memᴰ command) (commands-note router z) before in
            elim (commands-publish p db router w s h) [
              | inl same ↦ inl (subst (Memᴰ command) same sent)
              | inr same ↦
                  OnlyAdds-reconcile s.owner s.records s.records w (λ id r x. x) command
                    (subst (Memᴰ command) same sent)
            ]
      ]
