-- ===== src/Examples/Rounds.antt =====
-- A worker with one instance, whose unit is not active yet.
use edgelab.Publication.{publish}
use edgelab.Publication.Posts.{publish-posts}
use edgelab.Examples.Fixtures.{plain, route, snapshot_of}
use edgelab.Shared.Outcome.{ok}
use edgelab.Shared.{[], false, none, refl, some, true, ◌∷◌, ◌≡◌, ◌⊎◌}
use edgelab.Publication.{
  Surroundings, Worker, blank, check_echo, check_objects, expected_workload, forget, is_lab_unit,
  is_plain, note, observe, observed, publish_round, reconcile_record, reconcile_workloads, serves,
  start, supervise, text_at,
}
use edgelab.Publication.Commands.{OnlyAdds, publish_round-OnlyAdds}
use edgelab.Shared.Table.{HasDistinctKeys, insert, lookup}
use edgelab.Registry.{Database, RouteSnapshot, snapshot}
use edgelab.Management.{Config, Guard, Workload, is_restoring}
use edgelab.Publication.Verified.{AreObserved, reconcile_workloads-AreObserved}

abbrev echo_workload : Workload
echo_workload = record {
  unit = "edgelab-one.service";
  app = "echo";
  endpoint = "127.0.0.1:19001";
  version = "v1";
  kind = "echo";
}

abbrev owner_config : Config
owner_config = record {
  router_admin_token = "router-administrator-token-000001";
  workloads = ("one", echo_workload) ∷ [];
  owner = "worker-1";
  applications = "echo" ∷ [];
  token = "publication-token-00000000000001";
  admin_token = "administrator-token-000000000001";
  routers = "http://10.0.0.1:7000" ∷ "http://10.0.0.2:7000" ∷ [];
  restore_guard = "/var/lib/edgelab/restore";
}

abbrev pub idle : Surroundings
idle = record {
  guard = Guard.absent;
  reads_state = true;
  is_active = λ sent unit. elim sent [ [] ↦ false | command ∷ rest ↦ true ];
  succeeds = λ sent. true;
  health = λ endpoint. none;
  greeting = λ endpoint.
      some
        (("app", "echo") ∷ ("instance", "one") ∷ ("worker", "worker-1") ∷ ("version", "v1") ∷ []);
  router_status = λ router. some 200;
  now = 1000;
}

abbrev new_worker : Worker
new_worker = record { identities = []; publications = []; commands = []; posts = [] }

abbrev one_record : RouteSnapshot
one_record = snapshot_of 2 (("one", route "one" "127.0.0.1:19001" 2 false) ∷ [])

abbrev registry : Database RouteSnapshot
registry = record { body = some one_record; operations = [] }

has_started :
    (publish_round owner_config idle plain registry
      ("http://10.0.0.1:7000" ∷ [])
      new_worker).commands
    ≡ record { action = start; unit = "edgelab-one.service" } ∷ []
unfolding publish_round note publish reconcile_workloads reconcile_record forget blank supervise
    observe serves observed check_echo check_objects text_at expected_workload is_lab_unit is_plain
    is_restoring snapshot lookup insert
has_started = refl

registry-snapshot : snapshot plain registry ≡ some one_record
unfolding snapshot
registry-snapshot = refl

one-distinct : HasDistinctKeys one_record.records
unfolding lookup
one-distinct = (refl, tt)

publish_round-OnlyAdds_example :
    OnlyAdds owner_config one_record.records new_worker
      (publish_round owner_config idle plain registry ("http://10.0.0.1:7000" ∷ []) new_worker)
publish_round-OnlyAdds_example =
    publish_round-OnlyAdds owner_config idle plain registry ("http://10.0.0.1:7000" ∷ []) new_worker
      one_record registry-snapshot

is_reconciled :
    (reconcile_workloads owner_config idle "worker-1" one_record.records new_worker).1 ≡ ok tt
unfolding reconcile_workloads reconcile_record forget blank supervise observe serves observed
    check_echo check_objects text_at expected_workload is_lab_unit is_plain lookup insert
is_reconciled = refl

reconcile_workloads-AreObserved_example :
    AreObserved owner_config idle "worker-1"
      (reconcile_workloads owner_config idle "worker-1" one_record.records new_worker).0
      one_record.records
reconcile_workloads-AreObserved_example =
    reconcile_workloads-AreObserved owner_config idle "worker-1" one_record.records new_worker
      one-distinct is_reconciled

publish-posts_example :
    ((publish owner_config idle plain registry "http://10.0.0.1:7000" new_worker).0.posts ≡ [])
    ⊎ ((is_restoring Guard.absent ≡ false)
        × ((publish owner_config idle plain registry "http://10.0.0.1:7000" new_worker).0.posts
            ≡ ("http://10.0.0.1:7000", one_record) ∷ [])
        × AreObserved owner_config idle "worker-1"
            (publish owner_config idle plain registry "http://10.0.0.1:7000" new_worker).0
            one_record.records)
publish-posts_example =
    publish-posts owner_config idle plain registry "http://10.0.0.1:7000" new_worker one_record
      registry-snapshot one-distinct
