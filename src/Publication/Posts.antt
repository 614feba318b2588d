-- ===== src/Publication/Posts.antt =====
-- When a worker posts its snapshot to a router (cmd/worker/serve.go).

use edgelab.Publication.{
  PublishError, Surroundings, Worker, expected_workload, forget, observe, publish, reconcile_record,
  reconcile_workloads, supervise,
}
use edgelab.Shared.Outcome.{Outcome-cases, err, ok}
use edgelab.Shared.Table.{HasDistinctKeys, Table, lookup}
use edgelab.Registry.{Database, Platform, RouteRecord, RouteSnapshot, snapshot}
use edgelab.Management.{Config, is_restoring}
use edgelab.Shared.{
  Bool-cases, Option-cases, String, [], ap, arith, false, inl, inr, not, refl, some, ◌||◌, ◌∙◌, ◌∷◌,
  ◌≡◌, ◌⊎◌,
}
use edgelab.Publication.Verified.{AreObserved, reconcile_workloads-AreObserved}
use edgelab.Shared.Action.{after_bind}

module _ (config : Config) (env : Surroundings) where
  posts-reconcile_record :
      (owner id : String) (r : RouteRecord) (w : Worker)
      → (reconcile_record config env owner id r w).0.posts ≡ w.posts
  unfolding reconcile_record forget supervise observe
  posts-reconcile_record owner id r w =
      elim (Outcome-cases (expected_workload (lookup id config.workloads) r)) [
        | inr (e, bad) ↦ ground arith
        | inl (x, good) ↦ ground arith
      ]

  posts-reconcile_workloads :
      (owner : String) (records : Table RouteRecord) (w : Worker)
      → (reconcile_workloads config env owner records w).0.posts ≡ w.posts
  unfolding reconcile_workloads
  posts-reconcile_workloads owner [] w = refl
  posts-reconcile_workloads owner ((id, r) ∷ rest) w =
      let first = posts-reconcile_record owner id r w in
      after_bind (λ z. z.0.posts ≡ w.posts) (reconcile_record config env owner id r)
        (λ u. reconcile_workloads config env owner rest) w (λ e h. first)
        (λ u h.
          posts-reconcile_workloads owner rest (reconcile_record config env owner id r w).0 ∙ first)

  module _ {Blob : Type 0} (p : Platform Blob) (db : Database Blob) (router : String) (w : Worker)
      (s : RouteSnapshot) where
    publish_failed :
        (e : PublishError)
        → snapshot p db ≡ some s
        → (reconcile_workloads config env s.owner s.records w).1 ≡ err e
        → (publish config env p db router w).0.posts ≡ w.posts
    unfolding publish
    publish_failed e h bad =
        let kept = posts-reconcile_workloads s.owner s.records w in ground (arith, kept)

    publish_reconciled :
        snapshot p db ≡ some s
        → (reconcile_workloads config env s.owner s.records w).1 ≡ ok tt
        → ((publish config env p db router w).0.posts ≡ w.posts)
          ⊎ ((is_restoring env.guard ≡ false)
              × ((publish config env p db router w).0.posts ≡ (router, s) ∷ w.posts)
              × ((publish config env p db router w).0.identities
                  ≡ (reconcile_workloads config env s.owner s.records w).0.identities))
    unfolding publish
    publish_reconciled h good =
        let kept = posts-reconcile_workloads s.owner s.records w in
        elim (Bool-cases (is_restoring env.guard || not env.reads_state)) [
          | inl failed ↦ inl (ground arith)
          | inr passed ↦ elim (Option-cases (p.encode s)) [
            | inl e ↦ inl (ground (arith, kept))
            | inr (blob, e) ↦ inr (ground arith, ground (arith, kept), ground arith)
          ]
        ]

    -- A worker posts nothing to a router, or it posts the snapshot of its registry, once, with no
    -- restore guard, and after it has verified every live instance of that snapshot by the
    -- answer of its configured workload. The records of the snapshot have distinct identities.
    pub publish-posts :
        snapshot p db ≡ some s
        → HasDistinctKeys s.records
        → ((publish config env p db router w).0.posts ≡ w.posts)
          ⊎ ((is_restoring env.guard ≡ false)
              × ((publish config env p db router w).0.posts ≡ (router, s) ∷ w.posts)
              × AreObserved config env s.owner (publish config env p db router w).0 s.records)
    publish-posts h distinct =
        elim (Outcome-cases (reconcile_workloads config env s.owner s.records w).1) [
          | inr (e, bad) ↦ inl (publish_failed e h bad)
          | inl (u, good) ↦ elim (publish_reconciled h good) [
            | inl same ↦ inl same
            | inr (free, posted, seen) ↦ inr (
              free,
              posted,
              λ id r known.
                  let (there, gone) =
                    reconcile_workloads-AreObserved config env s.owner s.records w distinct good id
                      r known in
                  (
                    λ l.
                        let (x, has, heard, e) = there l in
                        (x, has, heard, ap (lookup id) seen ∙ e),
                    λ d. ap (lookup id) seen ∙ gone d,
                  ),
            )
          ]
        ]
