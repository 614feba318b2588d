-- ===== src/Grow.antt =====
-- The growth controller of the data volume (cmd/grow/main.go): its bounds, its table of operations,
-- and one reconciliation `step`, which a crash may interrupt at each of its points.
pub mod Step
pub mod Pending
pub mod Done
pub mod Success
pub mod Resumption
pub mod Start
pub mod Control
pub mod Owned
use edgelab.Shared.{
  Bool, List, Option, String, [], if◌then◌else◌, ltb, none, not, some, str_eq, true, ℕ, ◌%◌, ◌&&◌,
  ◌*◌, ◌++◌, ◌+◌, ◌-◌, ◌/◌, ◌==◌, ◌^◌, ◌||◌, ◌∷◌,
}

-- The flags, in MiB where they are sizes. All are int64, and none is negative once checked.
pub record Flags : Type 0 where
  pub operation : String
  pub target : ℕ
  pub threshold : ℕ
  pub maximum : ℕ
  pub reserve : ℕ
  pub watch : Bool
  pub crash_after : String

-- A row of `operations`; the list of rows is in the order of their rowids.
pub record GrowthRow : Type 0 where
  pub id : String
  pub uuid : String
  pub target : ℕ
  pub done : Bool

pub record Volume : Type 0 where
  pub lv_bytes : ℕ
  pub filesystem_bytes : ℕ
  pub operations : List GrowthRow

-- What one step meets: whether the owned filesystem is mounted, the calls that fail, the usage, the
-- free space of the group, the sizes that lvextend and resize2fs come to, and a fresh identity.
pub data Call : Type 0 where
  read_size find_operation find_pending statfs read_free insert_row : Call
  reread_size dump_superblock mark_done : Call

pub record Conditions : Type 0 where
  pub is_mounted : Bool
  pub fails : Call → Bool
  pub is_below_threshold : Bool
  pub free : ℕ
  pub lvextend : ℕ → ℕ → Option ℕ
  pub resize2fs : ℕ → ℕ → Option ℕ
  pub fresh_id : String

pub data GrowError : Type 0 where
  invalid_bounds watch_conflict outside_fixture not_mounted call_failed : GrowError
  operation_conflict other_pending would_shrink cap_reached no_space : GrowError
  pending_over_cap lv_short filesystem_short stopped : GrowError

pub data Report : Type 0 where
  already_complete : String → ℕ → Report
  below_threshold : Report
  grown : String → ℕ → ℕ → ℕ → Report

-- 1<<20
abbrev pub mib : ℕ
mib = 1048576

-- The allocation limit of the fixture.
abbrev pub fixture_limit : ℕ
fixture_limit = 6144

unfoldable pub check_flags : Bool → Flags → Option GrowError
check_flags is_root flags =
    if not is_root || ltb flags.threshold 1 || ltb 100 flags.threshold || ltb flags.maximum 1
    then some invalid_bounds
    else if flags.watch && (not (str_eq flags.operation "") || not (flags.target == 0))
    then some watch_conflict
    else if ltb fixture_limit flags.maximum || ltb fixture_limit flags.target
    then some outside_fixture
    else none

-- *target = (*target + 3) / 4 * 4
unfoldable pub whole_extents : ℕ → ℕ
whole_extents target = (target + 3) / 4 * 4

-- (wanted + 4*mib - 1) / (4 * mib) * (4 * mib)
unfoldable pub round_up : ℕ → ℕ
round_up wanted = (wanted + 4 * mib - 1) / (4 * mib) * (4 * mib)

-- needed + reserve*mib > free in int64: a sum of 2^63 or more is negative.
unfoldable pub exceeds : ℕ → ℕ → ℕ → Bool
exceeds needed reserve free =
    let sum = (needed + reserve * mib) % 2 ^ 64 in ltb sum (2 ^ 63) && ltb free sum

-- SELECT … WHERE id=?
unfoldable pub find_row : String → List GrowthRow → Option GrowthRow
find_row id [] = none
find_row id (row ∷ rest) =
    let later = find_row id rest in if str_eq row.id id then some row else later

-- SELECT … WHERE done=0 ORDER BY rowid LIMIT 1
unfoldable pub first_pending : List GrowthRow → Option GrowthRow
first_pending [] = none
first_pending (row ∷ rest) = let later = first_pending rest in if row.done then later else some row

-- UPDATE operations SET done=1 WHERE id=?
unfoldable pub mark : String → List GrowthRow → List GrowthRow
mark id [] = []
mark id (row ∷ rest) = (if str_eq row.id id then record row { done = true } else row) ∷ mark id rest

-- INSERT: the primary key must be new.
unfoldable pub insert_new : GrowthRow → List GrowthRow → Option (List GrowthRow)
insert_new row rows = elim (find_row row.id rows) [
  | none ↦ some (rows ++ row ∷ [])
  | some old ↦ none
]
