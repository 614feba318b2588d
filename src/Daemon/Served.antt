-- ===== src/Daemon/Served.antt =====
-- What a worker's daemon keeps from its start on (cmd/worker/serve.go): the registry, what it posts to
-- the routers, and what it asks of its supervisor.
use edgelab.Objects.{owned}
use edgelab.Shared.Table.{lookup}
use edgelab.Shared.Outcome.{Outcome, err, ok}
use edgelab.Shared.{
  List, String, [], ap, arith, inl, inr, refl, some, subst, sym, true, ◌∙◌, ◌∷◌, ◌≡◌, ◌⊎◌,
}
use edgelab.Management.{Config, Decoders, Workload}
use edgelab.Management.Ownership.{
  IsOwned, IsWorkload, post_instances-keeps, register-HasOwnedRecords,
}
use edgelab.Registry.{Database, Faults, Platform, Registration, RouteSnapshot, register, snapshot}
use edgelab.Registry.Identity.{Extends, Extends-refl, Extends-trans, register-Extends}
use edgelab.Registry.Invariant.{IsConsistent, register-IsValid}
use edgelab.Publication.{
  Command, Surroundings, Worker, is_lab_unit, note, publish, publish_round, PublishError,
}
use edgelab.Publication.Commands.{publish_round-OnlyAdds}
use edgelab.Publication.Posts.{publish-posts}
use edgelab.Daemon.Run.{Daemon, Event, Settings, called, handle, published, serve}
use mathlib.Core.List.{Memᴰ}

List-cases : {A : Type 0} (xs : List A) → (xs ≡ []) ⊎ ((x : A) × (rest : List A) × (xs ≡ x ∷ rest))
List-cases [] = inl refl
List-cases (x ∷ rest) = inr (x, rest, refl)

-- Each post is to a configured router and of configured workloads alone, and extends the one before it;
-- the last one is extended by the registry.
abbrev pub AreOrdered : Config → RouteSnapshot → List (String × RouteSnapshot) → Type 0
AreOrdered config s [] = Unit
AreOrdered config s ((router, t) ∷ rest) =
    Memᴰ router config.routers × IsOwned config t × Extends t s × AreOrdered config t rest

-- Each command is for the unit of the lab that a configured workload has.
abbrev pub AreOfWorkloads : Config → List Command → Type 0
AreOfWorkloads config commands =
    (command : Command)
    → Memᴰ command commands
    → (id : String) × (x : Workload) × (lookup id config.workloads ≡ some x)
      × (is_lab_unit x.unit ≡ true)
      × (command.unit ≡ x.unit)

AreOrdered-Extends :
    (config : Config) (s s' : RouteSnapshot) (posts : List (String × RouteSnapshot))
    → Extends s s'
    → AreOrdered config s posts
    → AreOrdered config s' posts
AreOrdered-Extends config s s' [] e h = tt
AreOrdered-Extends config s s' ((router, t) ∷ rest) e (there, owned, before, h) =
    (there, owned, Extends-trans before e, h)

module _ {Body Blob : Type 0} (d : Decoders Body) (p : Platform Blob) (settings : Settings) where
  -- The registry's snapshot is the one given, consistent and of configured workloads alone.
  abbrev pub HasSnapshot : Database Blob → RouteSnapshot → Type 0
  HasSnapshot db s =
      (snapshot p db ≡ some s) × IsConsistent db.operations s × IsOwned settings.config s

  pub record HasServed (x : Daemon Blob) : Type 0 where
    pub current : RouteSnapshot
    pub stored : HasSnapshot x.database current
    pub own : current.owner ≡ settings.config.owner
    pub ordered : AreOrdered settings.config current x.worker.posts
    pub commanded : AreOfWorkloads settings.config x.worker.commands
    pub routers : (router : String) → Memᴰ router x.due → Memᴰ router settings.config.routers

  -- What a call makes of the registry.
  abbrev Follows : RouteSnapshot → Database Blob → Type 0
  Follows s db = (s' : RouteSnapshot) × HasSnapshot db s' × Extends s s'

  Follows-register :
      (f : Faults) (db : Database Blob) (request : Registration) (s : RouteSnapshot)
      → IsWorkload settings.config request.id request.app request.endpoint
      → HasSnapshot db s
      → Follows s (register p f db request).0
  Follows-register f db request s w (h, c, o) =
      let (t, ht, e) = register-Extends p f db request s h in
      let (u, hu, valid) = register-IsValid p f db request (s, h, c) in
      let (v, hv, owned) =
        register-HasOwnedRecords d settings.config settings.allowed p f db request w (s, h, o) in
      let u_t : u ≡ t = ground arith in
      let v_t : v ≡ t = ground arith in
      (
        t,
        (
          ht,
          subst (IsConsistent (register p f db request).0.operations) u_t valid,
          subst (IsOwned settings.config) v_t owned,
        ),
        e,
      )

  posts-note :
      (env : Surroundings) (router : String) (z : Worker × Outcome PublishError (Unit {0}))
      → (note settings.config env router z).posts ≡ z.0.posts
  unfolding note
  posts-note env router (w, ok u) = refl
  posts-note env router (w, err e) = refl

  AreOrdered-publish :
      (env : Surroundings) (db : Database Blob) (router : String) (w : Worker) (s : RouteSnapshot)
      → HasSnapshot db s
      → Memᴰ router settings.config.routers
      → AreOrdered settings.config s w.posts
      → AreOrdered settings.config s
          (note settings.config env router (publish settings.config env p db router w)).posts
  AreOrdered-publish env db router w s (h, c, o) there ordered =
      let z = publish settings.config env p db router w in
      subst (AreOrdered settings.config s) (sym (posts-note env router z))
        (elim (publish-posts settings.config env p db router w s h c.distinct) [
          | inl same ↦ subst (AreOrdered settings.config s) (sym same) ordered
          | inr (free, posted, seen) ↦
              subst (AreOrdered settings.config s) (sym posted) (there, o, Extends-refl s, ordered)
        ])

  AreOfWorkloads-publish :
      (env : Surroundings) (db : Database Blob) (router : String) (w : Worker) (s : RouteSnapshot)
      → snapshot p db ≡ some s
      → AreOfWorkloads settings.config w.commands
      → AreOfWorkloads settings.config
          (note settings.config env router (publish settings.config env p db router w)).commands
  unfolding publish_round
  AreOfWorkloads-publish env db router w s h commanded command m =
      elim (publish_round-OnlyAdds settings.config env p db (router ∷ []) w s h command m) [
        | inl before ↦ commanded command before
        | inr (id, r, x, among, known, app, endpoint, lab, e) ↦
            (id, x, known, lab, ap (λ y. y.unit) e)
      ]

  HasServed-handle :
      (event : Event Body) (x : Daemon Blob) → HasServed x → HasServed (handle p d settings event x)
  unfolding handle
  HasServed-handle (called f guard r) x v =
      let (s, stored, e) =
        post_instances-keeps d settings.config settings.allowed p (Follows v.current) f guard
          x.database r (v.current, v.stored, Extends-refl v.current)
          (λ request w. Follows-register f x.database request v.current w v.stored) in
      record {
        current = s;
        stored = stored;
        own = e.owner_kept ∙ v.own;
        ordered = AreOrdered-Extends settings.config v.current s x.worker.posts e v.ordered;
        commanded = v.commanded;
        routers = v.routers;
      }
  HasServed-handle (published env) x v = elim (List-cases x.due) [
    | inl none_due ↦ rw none_due (record {
      current = v.current;
      stored = v.stored;
      own = v.own;
      ordered = v.ordered;
      commanded = v.commanded;
      routers = λ router m. m;
    })
    | inr (router, rest, e) ↦
        let known =
          subst (λ l. (k : String) → Memᴰ k l → Memᴰ k settings.config.routers) e v.routers in
        rw e (record {
          current = v.current;
          stored = v.stored;
          own = v.own;
          ordered =
              AreOrdered-publish env x.database router x.worker v.current v.stored
                (known router (Memᴰ.head refl)) v.ordered;
          commanded =
              AreOfWorkloads-publish env x.database router x.worker v.current v.stored.0
                v.commanded;
          routers = λ k m. known k (Memᴰ.tail m);
        })
  ]

  pub HasServed-serve :
      (events : List (Event Body)) (x : Daemon Blob)
      → HasServed x
      → HasServed (serve p d settings events x)
  unfolding serve
  HasServed-serve [] x v = v
  HasServed-serve (event ∷ rest) x v =
      HasServed-serve rest (handle p d settings event x) (HasServed-handle event x v)
