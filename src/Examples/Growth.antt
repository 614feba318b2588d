-- ===== src/Examples/Growth.antt =====
-- An interrupted growth of a volume from 8 to 16 MiB.
use edgelab.Grow.{Conditions}
use edgelab.Shared.Outcome.{err, ok}
use edgelab.Grow.Step.{
  admit_size, ask, begin_new, carry_out, extend, finish_step, name_of, named, pursue, read_named,
  resize, select, select_pending, settle, start_new, step, stop_at,
}
use edgelab.Grow.Owned.{IsKept, IsOwned, control_guarded}
use edgelab.Grow.Control.{control, reconcile}
use edgelab.Grow.Start.{
  Fixture, Host, are_backed, check_own_flags, disk_name, is_owned_fixture, start,
}
use edgelab.Shared.Pragmas.{is_durable, is_text}
use edgelab.Grow.Success.{Grows, step_grown}
use edgelab.Grow.{
  check_flags, whole_extents, Flags, GrowthRow, Volume, exceeds, find_row, first_pending, grown,
  insert_new, mark, round_up, stopped,
}
use edgelab.Shared.{
  Bool, List, String, [], ap, arith, false, refl, some, true, ℕ, ◌∷◌, ◌≡◌, ◌^◌, Option,
  if◌then◌else◌, str_eq, ◌⊎◌,
}
use edgelab.Grow.Resumption.{AreGood, step_resumes}

abbrev good : Conditions
good = record {
  is_mounted = true;
  fails = λ x. false;
  is_below_threshold = false;
  free = 1073741824;
  lvextend = λ current wanted. some wanted;
  resize2fs = λ lv fs. some lv;
  fresh_id = "growth-2";
}

abbrev flags_for : String → String → Flags
flags_for operation crash_after = record {
  operation = operation;
  target = 16;
  threshold = 80;
  maximum = 6144;
  reserve = 512;
  watch = false;
  crash_after = crash_after;
}

abbrev row_of : Bool → GrowthRow
row_of done = record { id = "growth-1"; uuid = "lv-uuid"; target = 16777216; done = done }

abbrev small : List GrowthRow → Volume
small rows = record { lv_bytes = 8388608; filesystem_bytes = 8388608; operations = rows }

abbrev grown_volume : Volume
grown_volume = record {
  lv_bytes = 16777216;
  filesystem_bytes = 16777216;
  operations = row_of true ∷ [];
}

-- The first run stops once the operation is stored.
stops_after_intent :
    step "lv-uuid" (flags_for "growth-1" "intent") good (small [])
    ≡ (small (row_of false ∷ []), err stopped)
unfolding step select read_named named select_pending pursue start_new begin_new admit_size ask
    name_of stop_at finish_step carry_out extend resize settle find_row first_pending insert_new
    exceeds round_up mark
stops_after_intent = refl

-- The next one carries it out.
goes_on :
    step "lv-uuid" (flags_for "" "") good (small (row_of false ∷ []))
    ≡ (grown_volume, ok (grown "growth-1" 16777216 16777216 16777216))
unfolding step select read_named named select_pending pursue start_new begin_new admit_size ask
    name_of stop_at finish_step carry_out extend resize settle find_row first_pending insert_new
    exceeds round_up mark
goes_on = refl

step_grown_example :
    Grows "lv-uuid"
      (flags_for "" "")
      good
      (step "lv-uuid" (flags_for "" "") good (small (row_of false ∷ []))).0
      "growth-1"
      16777216
      16777216
      16777216
step_grown_example =
    step_grown "lv-uuid" (flags_for "" "") good (small (row_of false ∷ [])) "growth-1" 16777216
      16777216 16777216 (ap (λ r. r.1) goes_on)

good-AreGood : AreGood good 16777216
good-AreGood = record {
  mounted = refl;
  nothing_fails = λ x. refl;
  extends = λ current. (16777216, refl, omega arith);
  resizes = λ lv fs enough. (lv, refl, enough);
}

step_resumes_example :
    (lv : ℕ) × (fs : ℕ) × ((step "lv-uuid" (flags_for "" "") good (small (row_of false ∷ []))).1
      ≡ ok (grown "growth-1" 16777216 lv fs))
unfolding first_pending
step_resumes_example =
    step_resumes "lv-uuid" (flags_for "" "") good (small (row_of false ∷ [])) (row_of false)
      good-AreGood refl refl refl (omega arith)

-- A reserve of 2^44 MiB wraps around to none.
reserve_wraps : exceeds 4194304 (2 ^ 44) 4194304 ≡ false
unfolding exceeds
reserve_wraps = refl

abbrev fixture : Fixture
fixture = record {
  machine = "machine-1";
  devices = "/dev/loop0" ∷ "/dev/loop1" ∷ "/dev/loop2" ∷ "/dev/loop3" ∷ [];
  lv = "/dev/edgelab_r2/data";
  uuid = "lv-uuid";
  mount_point = "/var/lib/edgelab-r2/volume";
}

abbrev backing : String → Option String
backing device =
    if str_eq device "/dev/loop0"
    then some "/var/lib/edgelab-r2/disk0"
    else if str_eq device "/dev/loop1"
    then some "/var/lib/edgelab-r2/disk1"
    else if str_eq device "/dev/loop2"
    then some "/var/lib/edgelab-r2/disk2"
    else some "/var/lib/edgelab-r2/disk3"

abbrev host : Host
host = record {
  is_root = true;
  is_trusted = true;
  marker = some "machine-1";
  storage = some fixture;
  machine_id = some "machine-1";
  backing = backing;
  lv_uuid = some "lv-uuid";
  is_free = true;
  journal = some "wal";
  synchronous = some 2;
  makes_table = true;
}

-- A whole run carries the stored operation out.
runs_to_the_end :
    control "/var/lib/edgelab-r2" (flags_for "" "") host (good ∷ []) (small (row_of false ∷ []))
    ≡ (grown_volume, ok (grown "growth-1" 16777216 16777216 16777216 ∷ []))
unfolding control reconcile start check_own_flags check_flags is_owned_fixture are_backed disk_name
    is_text is_durable whole_extents step select read_named named select_pending pursue start_new
    begin_new admit_size ask name_of stop_at finish_step carry_out extend resize settle find_row
    first_pending insert_new exceeds round_up mark
runs_to_the_end = refl

control_guarded_example :
    let after =
      (control "/var/lib/edgelab-r2"
        (flags_for "" "")
        host
        (good ∷ [])
        (small (row_of false ∷ []))).0 in
    (after ≡ small (row_of false ∷ []))
    ⊎ ((f : Fixture) × IsOwned (flags_for "" "") host f × IsKept (small (row_of false ∷ [])) after)
control_guarded_example =
    control_guarded "/var/lib/edgelab-r2" (flags_for "" "") host (good ∷ [])
      (small (row_of false ∷ [])) (omega arith)
