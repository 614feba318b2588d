-- ===== src/Examples/Runs.antt =====
-- A recovery that is interrupted after the first acknowledgement, and then goes on.
use edgelab.Recovery.Command.Fence.{HasFinished, recover_fenced}
use edgelab.Examples.Fixtures.{plain, route, snapshot_of}
use edgelab.Shared.Table.{insert, lookup}
use edgelab.Shared.Outcome.{err, ok}
use edgelab.Recovery.{
  advance, carry_deletion, crashed, is_quarantined, join, merge_owner, merge_owners, merge_record,
  merge_records, prepare, raise_to, reconcile_backup, same_identity, store,
}
use edgelab.Recovery.Command.{
  acknowledge_all, acknowledge_one, acknowledged, agree_on, check_journal, complete_recovery,
  distribute, is_first, recover, write_body,
}
use edgelab.Registry.{RouteSnapshot}
use edgelab.Recovery.Command.Completion.{IsComplete}
use edgelab.Recovery.Start.{
  RecoverFlags, are_two, are_valid, check_options, is_recoverable, recover_worker,
}
use edgelab.Recovery.Started.{AreChecked, recover_worker-IsComplete}
use edgelab.Management.{route_name}
use edgelab.Examples.Calls.{config}
use edgelab.Recovery.Command.Resume.{HasPlan, recover_again, recover_resumes}
use edgelab.Shared.{Bool, String, [], false, none, refl, some, true, ◌∷◌, ◌≡◌, ◌⊎◌}
use edgelab.Recovery.Run.{
  Arguments, Digests, Environment, Files, begin, collect_all, freeze_all, insert_all, new_journal,
  plan, plan_new, resume, save,
}

abbrev lost_token : String
lost_token = "00000000000000000000000000000000"

abbrev fresh_credential : String
fresh_credential = "0123456789abcdef0123456789abcdef0123456789abcdef0123456789abcdef"

abbrev request : Arguments
request = record {
  operation = "restore-1";
  database = "/var/lib/edgelab/owner.db";
  owner = "worker-1";
  routers = "http://10.0.0.1:7000" ∷ "http://10.0.0.2:7000" ∷ [];
}

abbrev bare : Digests
bare = record { sha256 = λ s. s; is_hex = λ s. true }

abbrev routers_up : Bool → Environment
routers_up crash = record {
  fails = λ x. false;
  freezes = λ router. true;
  account = λ router. some (snapshot_of 4 (("one", route "one" "127.0.0.1:19001" 4 true) ∷ []));
  acknowledge = λ router s hash. some (some (record { operation = "restore-1"; digest = "d" }));
  random_credential = fresh_credential;
  crash_after_first_ack = crash;
}

abbrev restored : Files RouteSnapshot
restored = record {
  guard = none;
  journal = none;
  body = some (snapshot_of 3 (("one", route "one" "127.0.0.1:19001" 2 false) ∷ []));
  token = lost_token;
}

abbrev halfway : Files RouteSnapshot
halfway = (recover plain bare request (routers_up true) restored).0

is_interrupted : (recover plain bare request (routers_up true) restored).1 ≡ err crashed
unfolding recover begin resume new_journal save plan plan_new freeze_all collect_all insert_all
    distribute check_journal acknowledge_all acknowledge_one acknowledged agree_on is_first
    complete_recovery write_body prepare merge_owners merge_owner merge_records merge_record join
    same_identity raise_to advance reconcile_backup carry_deletion is_quarantined store lookup
    insert
is_interrupted = refl

is_completed : (recover plain bare request (routers_up false) halfway).1 ≡ ok tt
unfolding recover begin resume new_journal save plan plan_new freeze_all collect_all insert_all
    distribute check_journal acknowledge_all acknowledge_one acknowledged agree_on is_first
    complete_recovery write_body prepare merge_owners merge_owner merge_records merge_record join
    same_identity raise_to advance reconcile_backup carry_deletion is_quarantined store lookup
    insert
is_completed = refl

is_unguarded : (recover plain bare request (routers_up false) halfway).0.guard ≡ none
unfolding recover begin resume new_journal save plan plan_new freeze_all collect_all insert_all
    distribute check_journal acknowledge_all acknowledge_one acknowledged agree_on is_first
    complete_recovery write_body prepare merge_owners merge_owner merge_records merge_record join
    same_identity raise_to advance reconcile_backup carry_deletion is_quarantined store lookup
    insert
is_unguarded = refl

-- What the routers and the backup come to.
abbrev merged : RouteSnapshot
merged = record {
  schema = 1;
  owner = "worker-1";
  incarnation = 2;
  revision = 5;
  records = ("one", route "one" "127.0.0.1:19001" 4 true) ∷ [];
}

has_plan : HasPlan merged fresh_credential halfway.journal
unfolding recover begin resume new_journal save plan plan_new freeze_all collect_all insert_all
    distribute check_journal acknowledge_all acknowledge_one acknowledged agree_on is_first
    complete_recovery write_body prepare merge_owners merge_owner merge_records merge_record join
    same_identity raise_to advance reconcile_backup carry_deletion is_quarantined store lookup
    insert
has_plan = (refl, refl)

recover_fenced_example :
    ((recover plain bare request (routers_up false) halfway).0 ≡ halfway)
    ⊎ HasFinished plain bare request
        (routers_up false)
        (recover plain bare request (routers_up false) halfway).0
recover_fenced_example = recover_fenced plain bare request (routers_up false) halfway is_unguarded

recover_resumes_example :
    HasPlan merged fresh_credential
      (recover_again plain bare request halfway (routers_up true ∷ routers_up false ∷ [])).journal
recover_resumes_example =
    recover_resumes plain bare request merged fresh_credential halfway
      (routers_up true ∷ routers_up false ∷ []) has_plan

abbrev restore_flags : RecoverFlags
restore_flags = record {
  config_path = "/etc/edgelab/worker.json";
  database = "/var/lib/edgelab/owner.db";
  journal_path = "/var/lib/edgelab/recovery.json";
  operation = "restore-1";
}

is_checked : check_options restore_flags (some (some config)) ≡ ok request
unfolding check_options are_valid is_recoverable are_two route_name
is_checked = refl

is_restored :
    (recover_worker plain bare (routers_up false) restore_flags (some (some config)) halfway).1
    ≡ ok tt
unfolding recover_worker
is_restored = rw (recover_worker, is_checked, is_completed)

recover_worker-IsComplete_example :
    (a : Arguments) × AreChecked restore_flags (some (some config)) a
    × IsComplete plain bare a
        (routers_up false)
        (recover_worker plain bare (routers_up false) restore_flags (some (some config)) halfway).0
recover_worker-IsComplete_example =
    recover_worker-IsComplete plain bare (routers_up false) restore_flags (some (some config))
      halfway is_restored
