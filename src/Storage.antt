-- ===== src/Storage.antt =====
-- The thin volumes of a worker (cmd/worker/storage.go): their inspection, creation and mounts.
pub mod Creation
pub mod Created
pub mod Digest
pub mod Unmarked
use edgelab.Shared.Split.{split}
use edgelab.Shared.Table.{Table, insert, lookup}
use edgelab.Shared.Outcome.{Outcome, err, expect, fail_if, ok, ◌>>=◌, ◌>>◌}
use edgelab.Shared.{
  Bool, List, Option, String, [], false, if◌then◌else◌, none, not, some, str_append, str_eq, ℕ,
  ◌&&◌, ◌||◌, ◌∷◌,
}

pub record LogicalVolume : Type 0 where
  pub name : String
  pub uuid : String
  pub tags : String
  pub pool : String
  pub origin : String
  pub attributes : String
  pub size : String
  pub data_percent : String
  pub metadata_percent : String

-- float64 with strconv.ParseFloat; `ge` is `>=` and `eq` is `==`.
pub record Floats (Number : Type 0) : Type 0 where
  pub parse : String → Option Number
  pub of_nat : ℕ → Number
  pub add : Number → Number → Number
  pub mul : Number → Number → Number
  pub div : Number → Number → Number
  pub ge : Number → Number → Bool
  pub eq : Number → Number → Bool

-- `storage`: the identity of the pool and the limits.
pub record Limits (Number : Type 0) : Type 0 where
  pub pool_uuid : String
  pub data_limit : Number
  pub metadata_limit : Number

-- The commands that may fail.
pub data Tool : Type 0 where
  lvs lvcreate mkdir readlink mount_volume umount : Tool

-- What the tools do: lvcreate answers with the group that it leaves, readlink with the file that a
-- device name stands for.
pub record Tools : Type 0 where
  pub fails : Tool → Bool
  pub created : String → String → String → List LogicalVolume → List LogicalVolume
  pub resolve : String → String

pub data StorageError : Type 0 where
  tool_failed no_volume unparsable pool_mismatch data_threshold metadata_threshold : StorageError
  identity_conflict size_conflict mount_conflict : StorageError

unfoldable pub find_volume : String → List LogicalVolume → Option LogicalVolume
find_volume name [] = none
find_volume name (v ∷ rest) =
    let later = find_volume name rest in if str_eq v.name name then some v else later

unfoldable pub contains : List String → String → Bool
contains [] want = false
contains (item ∷ rest) want = str_eq item want || contains rest want

-- 256<<20, the size of every image and snapshot.
abbrev pub volume_bytes : ℕ
volume_bytes = 268435456

-- 64<<20, which a new volume may come to take.
abbrev pub creation_reserve : ℕ
creation_reserve = 67108864

-- "/dev/edgelab_worker/" + name
unfoldable pub device_of : String → String
device_of name = str_append "/dev/edgelab_worker/" name

module _ {Number : Type 0} (floats : Floats Number) (limits : Limits Number) (tools : Tools) where
  unfoldable pub inspect : String → List LogicalVolume → Outcome StorageError LogicalVolume
  inspect name volumes =
      if tools.fails lvs then err tool_failed else expect no_volume (find_volume name volumes)

  -- Both thresholds, with the bytes that are to be taken.
  unfoldable pub within_limits : ℕ → LogicalVolume → Outcome StorageError (Unit {0})
  within_limits reserve p = do
    used ← expect unparsable (floats.parse p.data_percent)
    metadata ← expect unparsable (floats.parse p.metadata_percent)
    size ← expect unparsable (floats.parse p.size)
    let taken = floats.div (floats.mul (floats.of_nat 100) (floats.of_nat reserve)) size
    fail_if (floats.ge (floats.add used taken) limits.data_limit) data_threshold
    fail_if (floats.ge (floats.add metadata (floats.of_nat 5)) limits.metadata_limit)
        metadata_threshold

  unfoldable pub capacity : ℕ → List LogicalVolume → Outcome StorageError (Unit {0})
  unfolding inspect within_limits
  capacity reserve volumes = do
    p ← inspect "pool" volumes
    fail_if (not (str_eq p.uuid limits.pool_uuid)) pool_mismatch
    within_limits reserve p

  -- The tags are sorted first, which changes no answer of `contains`.
  unfoldable pub is_ours : LogicalVolume → String → String → Bool
  is_ours v tag origin =
      contains (split b',' v.tags) "edgelab_worker"
      && contains (split b',' v.tags) tag
      && str_eq v.pool "pool"
      && str_eq v.origin origin

  unfoldable pub has_size : Option Number → Bool
  has_size none = false
  has_size (some size) = floats.eq size (floats.of_nat volume_bytes)

  unfoldable pub validate : LogicalVolume → String → String → Outcome StorageError (Unit {0})
  validate v tag origin = do
    fail_if (not (is_ours v tag origin)) identity_conflict
    fail_if (not (has_size (floats.parse v.size))) size_conflict

  unfoldable pub found_valid :
      String → String → Outcome StorageError LogicalVolume → Outcome StorageError LogicalVolume
  unfolding validate
  found_valid tag origin o = do v ← o; validate v tag origin; ok v
