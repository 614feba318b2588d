-- ===== src/Examples/Daemons.antt =====
-- A worker's daemon that starts on a new database, registers an instance and publishes it.
use edgelab.Daemon.{Machine, ServeFlags, check_owner, open_state, read_config, status_epoch}
use edgelab.Daemon.Run.{
  Event, Settings, called, handle, published, serve, serve_worker, started, store_initial,
}
use edgelab.Daemon.Served.{HasServed}
use edgelab.Daemon.Started.{serve-HasServed}
use edgelab.Examples.Calls.{allowed, call, config, literal}
use edgelab.Examples.Fixtures.{add_one, delete_one, new_database, opened, plain, route, snapshot_of}
use edgelab.Examples.Rounds.{idle}
use edgelab.Management.{
  absent, admit, all_http, allow, check_config, is_restoring, post_instances, route_name, validate,
}
use edgelab.Publication.{
  blank, check_echo, check_objects, expected_workload, forget, is_lab_unit, is_plain, note, observe,
  observed, publish, reconcile_record, reconcile_workloads, serves, supervise, text_at,
}
use edgelab.Registry.{
  Registration, check, conflicts, is_reserved_deletion, is_taken, is_unknown_or_full,
  record_request, register, register_new, replay_or_new, snapshot,
}
use edgelab.Registry.History.{insert_initial}
use edgelab.Registry.Rollback.{no_faults}
use edgelab.Shared.Outcome.{ok}
use edgelab.Shared.Pragmas.{is_durable, is_text}
use edgelab.Shared.Table.{insert, lookup}
use edgelab.Shared.{List, [], none, refl, some, true, ◌∷◌, ◌≡◌, Option, String, ap, false, inl, ℕ}

abbrev flags : ServeFlags
flags = record {
  config_path = "/etc/edgelab/worker.json";
  state_path = "/var/lib/edgelab/state.db";
  status_version = 1;
}

abbrev machine : Machine
machine = record {
  config_file = some (900, some config);
  opens_lock = true;
  is_free = true;
  opens_database = true;
  journal = some "wal";
  synchronous = some 2;
  makes_tables = true;
  inserts = true;
  epoch = none;
  reads_state = true;
}

abbrev settings : Settings
settings = record { config = config; allowed = allowed; epoch = none }

abbrev events : List (Event Registration)
events =
    published idle
    ∷ called no_faults absent (call add_one)
    ∷ published idle
    ∷ published idle
    ∷ called no_faults absent (call delete_one)
    ∷ published idle
    ∷ []

starts_up : serve_worker plain flags machine new_database ≡ (opened, ok settings)
unfolding serve_worker store_initial check_owner open_state read_config status_epoch check_config
    route_name allow all_http is_durable is_text insert snapshot insert_initial
starts_up = refl

posts_in_order :
    (serve plain literal settings events (started plain settings opened)).worker.posts
    ≡ ("http://10.0.0.1:7000", snapshot_of 3 (("one", route "one" "127.0.0.1:19001" 3 true) ∷ []))
      ∷ (
        "http://10.0.0.2:7000",
        snapshot_of 2 (("one", route "one" "127.0.0.1:19001" 2 false) ∷ []),
      )
      ∷ ("http://10.0.0.1:7000", snapshot_of 1 [])
      ∷ []
unfolding serve handle started post_instances admit validate route_name register replay_or_new
    register_new snapshot check record_request lookup insert is_reserved_deletion conflicts
    is_unknown_or_full is_taken note publish reconcile_workloads reconcile_record forget blank
    supervise observe serves observed check_echo check_objects text_at expected_workload is_lab_unit
    is_plain is_restoring
posts_in_order = refl

serve-HasServed_example :
    (◌≡◌ {A = Option String} (some "wal") (some "wal"))
    × (◌≡◌ {A = Option ℕ} (some 2) (some 2))
    × HasServed literal plain settings (
        serve plain literal settings events
          (started plain settings (serve_worker plain flags machine new_database).0))
serve-HasServed_example =
    serve-HasServed plain machine literal flags new_database settings events (inl (refl, refl))
      (ap (λ r. r.1) starts_up)
