-- ===== src/Grow/Owned.antt =====
-- The growth controller as a whole (cmd/grow/main.go): what it has checked before it changes its
-- volume, and what its loop keeps.
use edgelab.Storage.Creation.{mount}
use edgelab.Shared.Pragmas.{is_durable_sound, is_text_iff, is_durable, is_text}
use edgelab.Shared.Outcome.{ok, Outcome-cases}
use edgelab.Shared.{
  List, String, [], arith, eq_iff, none, some, true, ℕ, ◌+◌, ◌∷◌, ◌≡◌, Bool, Option-cases, ap,
  if◌then◌else◌, inl, inr, refl, subst, ◌∙◌, ◌≤◌, ◌⊎◌, length,
}
use edgelab.Grow.Start.{
  Fixture, Host, start, are_backed, disk_name, is_owned_fixture, check_own_flags,
}
use edgelab.Shared.Action.{◌>>=◌, pure, Preserves, Preserves-bind, Preserves-branch}
use edgelab.Grow.Step.{step}
use edgelab.Grow.Control.{control, reconcile}
use edgelab.Grow.{Flags, Conditions, Volume, check_flags, whole_extents}
use edgelab.Grow.Done.{Keeps, step-Keeps, Keeps-refl, Keeps-trans}
use edgelab.Grow.Pending.{pending, step_one_pending}

-- Each device stands for its own file of the fixture.
abbrev pub AreBacked : Host → ℕ → List String → Type 0
AreBacked h i [] = Unit
AreBacked h i (d ∷ rest) = (h.backing d ≡ some (disk_name i)) × AreBacked h (i + 1) rest

are_backed_sound :
    (h : Host) (i : ℕ) (ds : List String) → are_backed h i ds ≡ true → AreBacked h i ds
unfolding are_backed
are_backed_sound h i [] e = tt
are_backed_sound h i (d ∷ rest) e = (
  is_text_iff (disk_name i) (h.backing d) (ground arith),
  are_backed_sound h (i + 1) rest (ground arith),
)

-- What the controller has checked before it looks at its volume.
pub record IsOwned (flags : Flags) (h : Host) (f : Fixture) : Type 0 where
  pub stored : h.storage ≡ some f
  pub by_root : h.is_root ≡ true
  pub allowed : check_flags h.is_root flags ≡ none
  pub trusted : h.is_trusted ≡ true
  pub marked : h.marker ≡ some f.machine
  pub here : h.machine_id ≡ some f.machine
  pub same_volume : h.lv_uuid ≡ some f.uuid
  pub alone : h.is_free ≡ true
  pub logged : h.journal ≡ some "wal"
  pub synchronised : h.synchronous ≡ some 2
  pub four : length f.devices ≡ 4
  pub backed : AreBacked h 0 f.devices
  pub own_volume : f.lv ≡ "/dev/edgelab_r2/data"
  pub own_mount : f.mount_point ≡ "/var/lib/edgelab-r2/volume"

check_flags_root : (b : Bool) (flags : Flags) → check_flags b flags ≡ none → b ≡ true
unfolding check_flags
check_flags_root b flags h = ground arith

is_owned_fixture_sound :
    (h : Host) (marked : String) (f : Fixture)
    → is_owned_fixture h marked f ≡ true
    → (h.machine_id ≡ some f.machine)
      × (marked ≡ f.machine)
      × (length f.devices ≡ 4)
      × (f.lv ≡ "/dev/edgelab_r2/data")
      × (f.mount_point ≡ "/var/lib/edgelab-r2/volume")
unfolding is_owned_fixture
is_owned_fixture_sound h marked f e = (
  is_text_iff f.machine h.machine_id (ground arith),
  ground (arith, eq_iff marked f.machine),
  ground arith,
  ground (arith, eq_iff f.lv "/dev/edgelab_r2/data"),
  ground (arith, eq_iff f.mount_point "/var/lib/edgelab-r2/volume"),
)

check_own_flags_ok :
    (b : Bool) (root : String) (flags : Flags)
    → check_own_flags b root flags ≡ ok tt
    → check_flags b flags ≡ none
unfolding check_own_flags
check_own_flags_ok b root flags h = elim (Option-cases (check_flags b flags)) [
  | inr (x, bad) ↦ absurd (ground arith)
  | inl allowed ↦ allowed
]

-- The tests of a start that has gone through.
record HasPassed (root : String) (flags : Flags) (h : Host) (f : Fixture) : Type 0 where
  allowed : check_own_flags h.is_root root flags ≡ ok tt
  trusted : h.is_trusted ≡ true
  mark : String
  marked : h.marker ≡ some mark
  stored : h.storage ≡ some f
  owned : is_owned_fixture h mark f ≡ true
  backed : are_backed h 0 f.devices ≡ true
  same_volume : is_text f.uuid h.lv_uuid ≡ true
  alone : h.is_free ≡ true
  durable : is_durable h.journal h.synchronous ≡ true

start-HasPassed :
    (root : String) (flags : Flags) (h : Host) (f : Fixture)
    → start root flags h ≡ ok f
    → HasPassed root flags h f
unfolding start
start-HasPassed root flags h f e = elim (Outcome-cases (check_own_flags h.is_root root flags)) [
  | inr (x, bad) ↦ absurd (ground arith)
  | inl (u, allowed) ↦ elim (Option-cases h.marker) [
    | inl bad ↦ absurd (ground arith)
    | inr (m, marked) ↦ elim (Option-cases h.storage) [
      | inl bad ↦ absurd (ground arith)
      | inr (g, stored) ↦
          let same : g ≡ f = ground arith in
          subst (HasPassed root flags h) same (record {
            allowed = allowed;
            trusted = ground arith;
            mark = m;
            marked = marked;
            stored = stored;
            owned = ground arith;
            backed = ground arith;
            same_volume = ground arith;
            alone = ground arith;
            durable = ground arith;
          })
    ]
  ]
]

start-IsOwned :
    (root : String) (flags : Flags) (h : Host) (f : Fixture)
    → start root flags h ≡ ok f
    → IsOwned flags h f
start-IsOwned root flags h f e =
    let passed = start-HasPassed root flags h f e in
    let allowed = check_own_flags_ok h.is_root root flags passed.allowed in
    let (machine, mark_same, four, lv, mount) =
      is_owned_fixture_sound h passed.mark f passed.owned in
    let (wal, full) = is_durable_sound h.journal h.synchronous passed.durable in
    record {
      stored = passed.stored;
      by_root = check_flags_root h.is_root flags allowed;
      allowed = allowed;
      trusted = passed.trusted;
      marked = passed.marked ∙ ap some mark_same;
      here = machine;
      same_volume = is_text_iff f.uuid h.lv_uuid passed.same_volume;
      alone = passed.alone;
      logged = wal;
      synchronised = full;
      four = four;
      backed = are_backed_sound h 0 f.devices passed.backed;
      own_volume = lv;
      own_mount = mount;
    }

reconcile-Preserves :
    (I : Volume → Type 0) (uuid : String) (flags : Flags)
    → ((c : Conditions) → Preserves I (step uuid flags c))
    → (rounds : List Conditions) → Preserves I (reconcile uuid flags rounds)
unfolding reconcile
reconcile-Preserves I uuid flags keeps [] = λ v h. h
reconcile-Preserves I uuid flags keeps (c ∷ rest) =
    Preserves-bind I (step uuid flags c)
      (λ report.
        if flags.watch
        then (reconcile uuid flags rest >>= λ more. pure (report ∷ more))
        else pure (report ∷ []))
      (keeps c)
      (λ report.
        Preserves-branch I flags.watch (reconcile uuid flags rest >>= λ more. pure (report ∷ more))
          (pure (report ∷ []))
          (λ e.
            Preserves-bind I (reconcile uuid flags rest) (λ more. pure (report ∷ more))
              (reconcile-Preserves I uuid flags keeps rest) (λ more v h. h))
          (λ e v h. h))

-- What a run leaves of the volume's table, however many rounds it goes through: at most one
-- operation is pending, and each that was stored is kept.
abbrev pub IsKept : Volume → Volume → Type 0
IsKept v w = (pending w.operations ≤ 1) × Keeps v.operations w.operations

-- However the controller is started and however long it runs, it leaves its volume as it is, or it
-- has checked before that it is root on the fixture's machine, alone, with the fixture's four devices
-- and volume and a durable database. If at most one operation was pending then it stays so, and no
-- stored operation changes its volume or its target, or is no longer done.
pub control_guarded :
    (root : String) (flags : Flags) (h : Host) (rounds : List Conditions) (v : Volume)
    → pending v.operations ≤ 1
    → ((control root flags h rounds v).0 ≡ v)
      ⊎ ((f : Fixture) × IsOwned flags h f × IsKept v (control root flags h rounds v).0)
unfolding control
control_guarded root flags h rounds v few = elim (Outcome-cases (start root flags h)) [
  | inr (e, bad) ↦ inl (rw bad refl)
  | inl (f, good) ↦
      let flags' : Flags = record flags { target = whole_extents flags.target } in
      inr (
        f,
        start-IsOwned root flags h f good,
        rw good (
            reconcile-Preserves (IsKept v) f.uuid flags'
              (λ c w kept. (
                step_one_pending f.uuid flags' c w kept.0,
                λ id row found.
                    Keeps-trans v.operations w.operations (step f.uuid flags' c w).0.operations
                      kept.1 (step-Keeps f.uuid flags' c w) id row found,
              ))
              rounds v (few, Keeps-refl v.operations)),
      )
]
