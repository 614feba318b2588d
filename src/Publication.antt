-- ===== src/Publication.antt =====
-- What a worker does in the background (cmd/worker/serve.go): it reconciles its workloads with the
-- registry, publishes the registry's snapshot to the routers, and observes its instances.
pub mod Commands
pub mod Verified
pub mod Posts
use edgelab.Shared.Text.{all_codes, codes, ends_with}
use edgelab.Shared.Table.{Table, insert, lookup, delete}
use edgelab.Shared.Outcome.{Outcome, err, expect, ok}
use edgelab.Registry.{Database, Platform, RouteRecord, RouteSnapshot, snapshot}
use edgelab.Management.{Config, Guard, Workload, is_restoring}
use edgelab.Shared.{
  Bool, List, Option, String, [], false, if◌then◌else◌, ltb, none, not, some, starts_with, str_eq,
  true, ℕ, ◌&&◌, ◌-◌, ◌==◌, ◌||◌, ◌∷◌,
}
use edgelab.Shared.Action.{◌>>◌, ◌>>=◌, Action, gets, lift, modify, pure, stop_if}

pub data State : Type 0 where
  unknown verified stale : State

pub record InstanceObservation : Type 0 where
  pub state : State
  pub app : String
  pub instance_id : String
  pub version : String
  pub endpoint : String
  pub checked_ms : ℕ

-- `systemctl` changes a unit in two ways.
pub data Verb : Type 0 where
  start stop : Verb

pub record Command : Type 0 where
  pub action : Verb
  pub unit : String

-- The maps of workerDaemon, with the commands and the posts that have gone out, the last one first.
-- A publication is known by whether it succeeded.
pub record Worker : Type 0 where
  pub identities : Table InstanceObservation
  pub publications : Table Bool
  pub commands : List Command
  pub posts : List (String × RouteSnapshot)

-- The answer of an object store's `/health`.
pub record Health : Type 0 where
  pub status : ℕ
  pub identity : Table String

-- What a round meets. Whether a unit is active, and whether a command succeeds, depends on the
-- commands before. No answer stands for a failed call and for an undecodable one.
pub record Surroundings : Type 0 where
  pub guard : Guard
  pub reads_state : Bool
  pub is_active : List Command → String → Bool
  pub succeeds : List Command → Bool
  pub health : String → Option Health
  pub greeting : String → Option (Table String)
  pub router_status : String → Option ℕ
  pub now : ℕ

pub data PublishError : Type 0 where
  restore_guard no_snapshot unowned_workload supervisor_failed : PublishError
  objects_not_ready identity_not_ready unsupported_kind : PublishError
  unencodable router_unavailable router_refused : PublishError

-- m[key] of a map[string]string
unfoldable pub text_at : String → Table String → String
text_at key m = elim (lookup key m) [ none ↦ "" | some value ↦ value ]

-- !strings.ContainsAny(unit, "/ \t\n")
unfoldable pub is_plain : String → Bool
is_plain unit = all_codes (λ c. not (c == b'/' || c == b' ' || c == 9 || c == 10)) (codes unit)

-- The configured workload of the record, if its unit is one of the lab's.
unfoldable pub is_lab_unit : String → Bool
is_lab_unit unit = starts_with unit "edgelab-" && ends_with unit ".service" && is_plain unit

unfoldable pub expected_workload : Option Workload → RouteRecord → Outcome PublishError Workload
expected_workload none r = err unowned_workload
expected_workload (some w) r =
    if str_eq w.app r.app && str_eq w.endpoint r.endpoint && is_lab_unit w.unit
    then ok w
    else err unowned_workload

module _ (config : Config) (env : Surroundings) where
  unfoldable pub blank : InstanceObservation
  blank = record {
    state = unknown;
    app = "";
    instance_id = "";
    version = "";
    endpoint = "";
    checked_ms = env.now;
  }

  -- A live record is unknown until it has been verified.
  unfoldable pub forget : String → RouteRecord → Action Worker PublishError (Unit {0})
  unfolding blank
  forget id r =
      if r.deleted
      then pure tt
      else modify (λ w. record w { identities = insert id blank w.identities })

  -- A deleted record's unit is stopped, and a live one's is started.
  unfoldable pub supervise : Workload → RouteRecord → Action Worker PublishError (Unit {0})
  supervise expected r = do
    sent ← gets (λ w. w.commands)
    let command : Command = record {
      action = if r.deleted then stop else start;
      unit = expected.unit;
    }
    let is_due =
        if r.deleted
        then env.is_active sent expected.unit
        else not (env.is_active sent expected.unit)
    modify (λ w. if is_due then record w { commands = command ∷ w.commands } else w)
    stop_if (is_due && not (env.succeeds (command ∷ sent))) supervisor_failed

  unfoldable pub check_objects : String → Option Health → Outcome PublishError (Unit {0})
  check_objects id none = err objects_not_ready
  check_objects id (some h) =
      if h.status == 200 && str_eq (text_at "owner" h.identity) id
      then ok tt
      else err objects_not_ready

  unfoldable pub check_echo :
      String
      → String
      → Workload
      → RouteRecord
      → Option (Table String)
      → Outcome PublishError (Unit {0})
  check_echo id owner expected r none = err identity_not_ready
  check_echo id owner expected r (some m) =
      if str_eq (text_at "app" m) r.app
        && str_eq (text_at "instance" m) id
        && str_eq (text_at "worker" m) owner
        && str_eq (text_at "version" m) expected.version
      then ok tt
      else err identity_not_ready

  -- The instance says who it is, as its kind does.
  unfoldable pub serves : String → String → Workload → RouteRecord → Outcome PublishError (Unit {0})
  unfolding check_objects check_echo
  serves id owner expected r =
      if str_eq expected.kind "objects"
      then check_objects id (env.health expected.endpoint)
      else if str_eq expected.kind "echo"
      then check_echo id owner expected r (env.greeting expected.endpoint)
      else err unsupported_kind

  unfoldable pub observed : String → Workload → RouteRecord → InstanceObservation
  observed id expected r = record {
    state = verified;
    app = r.app;
    instance_id = id;
    version = if str_eq expected.kind "objects" then "" else expected.version;
    endpoint = r.endpoint;
    checked_ms = env.now;
  }

  unfoldable pub observe :
      String → String → Workload → RouteRecord → Action Worker PublishError (Unit {0})
  unfolding serves observed
  observe id owner expected r =
      if r.deleted then modify (λ w. record w { identities = delete id w.identities }) else (do
        lift (serves id owner expected r)
        modify (λ w. record w { identities = insert id (observed id expected r) w.identities }))

  -- One pass of the loop of reconcileWorkloads.
  unfoldable pub reconcile_record :
      String → String → RouteRecord → Action Worker PublishError (Unit {0})
  unfolding forget supervise observe
  reconcile_record owner id r = do
    forget id r
    expected ← lift (expected_workload (lookup id config.workloads) r)
    supervise expected r
    observe id owner expected r

  unfoldable pub reconcile_workloads :
      String → Table RouteRecord → Action Worker PublishError (Unit {0})
  reconcile_workloads owner [] = pure tt
  reconcile_workloads owner ((id, r) ∷ rest) = do
    reconcile_record owner id r
    reconcile_workloads owner rest

  -- The function that publishLoop calls for a router.
  unfoldable pub publish :
      {Blob : Type 0}
      → Platform Blob
      → Database Blob
      → String
      → Action Worker PublishError (Unit {0})
  unfolding reconcile_workloads
  publish p db router = do
    stop_if (is_restoring env.guard) restore_guard
    stop_if (not env.reads_state) no_snapshot
    s ← lift (expect no_snapshot (snapshot p db))
    reconcile_workloads s.owner s.records
    blob ← lift (expect unencodable (p.encode s))
    modify (λ w. record w { posts = (router, s) ∷ w.posts })
    status ← lift (expect router_unavailable (env.router_status router))
    stop_if (not (status == 200)) router_refused

  -- What the loop notes of a router.
  unfoldable pub note : String → Worker × Outcome PublishError (Unit {0}) → Worker
  note router (w, ok u) = record w { publications = insert router true w.publications }
  note router (w, err e) = record w { publications = insert router false w.publications }

  unfoldable pub publish_round :
      {Blob : Type 0} → Platform Blob → Database Blob → List String → Worker → Worker
  publish_round p db [] w = w
  publish_round p db (router ∷ rest) w =
      publish_round p db rest (note router (publish p db router w))

  -- The observation that `/status` shows.
  unfoldable pub shown : InstanceObservation → InstanceObservation
  shown o = elim o.state [
    | unknown ↦ o
    | stale ↦ o
    | verified ↦ if ltb 5000 (env.now - o.checked_ms) then record o { state = stale } else o
  ]
