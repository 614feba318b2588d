-- ===== src/Grow/Start.antt =====
-- The start of the growth controller (cmd/grow/main.go): the checks of what it owns.
use edgelab.Shared.Pragmas.{is_durable, is_text}
use edgelab.Shared.{
  Bool, List, Option, String, [], if◌then◌else◌, length, none, not, some, str_eq, true, ℕ, ◌&&◌,
  ◌+◌, ◌==◌, ◌∷◌,
}
use edgelab.Grow.{Flags, GrowError, check_flags, outside_fixture}
use edgelab.Shared.Outcome.{Outcome, err, expect, fail_if, ok, ◌>>=◌, ◌>>◌}

-- `fixture`
pub record Fixture : Type 0 where
  pub machine : String
  pub devices : List String
  pub lv : String
  pub uuid : String
  pub mount_point : String

-- What the start reads of its host, where it can be read: whether the directory is root's alone, the
-- machine that the marker names, the fixture, the machine, the file behind a device, the volume's
-- UUID, whether the lock is free, the settings of the database and whether the table can be made.
pub record Host : Type 0 where
  pub is_root : Bool
  pub is_trusted : Bool
  pub marker : Option String
  pub storage : Option Fixture
  pub machine_id : Option String
  pub backing : String → Option String
  pub lv_uuid : Option String
  pub is_free : Bool
  pub journal : Option String
  pub synchronous : Option ℕ
  pub makes_table : Bool

pub data ControlError : Type 0 where
  refused : GrowError → ControlError
  untrusted_directory unmarked no_storage ownership_mismatch : ControlError
  outside_allowlist lv_mismatch busy durability_mismatch no_table : ControlError

abbrev pub fixture_root : String
fixture_root = "/var/lib/edgelab-r2"

-- "disk%d" for the four devices.
unfoldable pub disk_name : ℕ → String
disk_name i =
    if i == 0
    then "/var/lib/edgelab-r2/disk0"
    else if i == 1
    then "/var/lib/edgelab-r2/disk1"
    else if i == 2
    then "/var/lib/edgelab-r2/disk2"
    else "/var/lib/edgelab-r2/disk3"

unfoldable pub are_backed : Host → ℕ → List String → Bool
are_backed h i [] = true
are_backed h i (d ∷ rest) = is_text (disk_name i) (h.backing d) && are_backed h (i + 1) rest

-- The fixture is of this machine, as the marker is, and is laid out as expected.
unfoldable pub is_owned_fixture : Host → String → Fixture → Bool
is_owned_fixture h marked f =
    is_text f.machine h.machine_id
    && length f.devices == 4
    && str_eq marked f.machine
    && str_eq f.lv "/dev/edgelab_r2/data"
    && str_eq f.mount_point "/var/lib/edgelab-r2/volume"

unfoldable pub check_own_flags : Bool → String → Flags → Outcome ControlError (Unit {0})
check_own_flags is_root root flags = elim (check_flags is_root flags) [
  | some e ↦ err (refused e)
  | none ↦ if str_eq root fixture_root then ok tt else err (refused outside_fixture)
]

-- From the flags to the database; the fixture that is owned.
unfoldable pub start : String → Flags → Host → Outcome ControlError Fixture
start root flags h = do
  check_own_flags h.is_root root flags
  fail_if (not h.is_trusted) untrusted_directory
  marked ← expect unmarked h.marker
  f ← expect no_storage h.storage
  fail_if (not (is_owned_fixture h marked f)) ownership_mismatch
  fail_if (not (are_backed h 0 f.devices)) outside_allowlist
  fail_if (not (is_text f.uuid h.lv_uuid)) lv_mismatch
  fail_if (not h.is_free) busy
  fail_if (not (is_durable h.journal h.synchronous)) durability_mismatch
  fail_if (not h.makes_table) no_table
  ok f
