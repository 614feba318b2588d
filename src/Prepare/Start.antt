-- ===== src/Prepare/Start.antt =====
-- The start of a preparation (cmd/worker/main.go): the arguments, what the worker owns, and its
-- database.
use edgelab.Shared.Pragmas.{is_durable, is_text}
use Prim.Native.String.{slice}
use edgelab.Shared.{Bool, List, Option, String, ltb, not, str_append, str_eq, ℕ, ◌&&◌, ◌==◌, ◌||◌}
use edgelab.Storage.{Floats, Limits, LogicalVolume, Tools, inspect}
use edgelab.Image.{max_blob, valid_digest}
use edgelab.Shared.Text.{is_alphanumeric, matches_class, trim_prefix}
use edgelab.Shared.Outcome.{Outcome, expect, fail_if, ok, ◌>>=◌, ◌>>◌, is_error}

-- The flags of a preparation; the size is an int64, which is not negative once checked.
pub record Arguments (Number : Type 0) : Type 0 where
  pub root : String
  pub id : String
  pub image : String
  pub size : ℕ
  pub data_limit : Number
  pub metadata_limit : Number
  pub unpack_root : String

-- `pool`
pub record PoolFile : Type 0 where
  pub machine : String
  pub device : String
  pub uuid : String

-- What the start meets: whether it is root, the directory is root's alone, the contents of pool.json,
-- the machine, the file behind a device, whether the cache, the lock and the table can be had, and the
-- settings of the database.
pub record Host : Type 0 where
  pub is_root : Bool
  pub is_trusted : Bool
  pub pool_file : Option PoolFile
  pub machine_id : Option String
  pub backing : String → Option String
  pub makes_cache : Bool
  pub opens_lock : Bool
  pub is_free : Bool
  pub opens_database : Bool
  pub journal : Option String
  pub synchronous : Option ℕ
  pub makes_table : Bool

pub data StartError : Type 0 where
  invalid_arguments untrusted_directory unreadable_pool ownership_mismatch : StartError
  outside_allowlist no_pool no_cache busy unreadable_database durability_mismatch : StartError
  invalid_root not_mounted : StartError

-- [a-zA-Z0-9_-]
unfoldable pub is_id_character : ℕ → Bool
is_id_character c = is_alphanumeric c || c == b'_' || c == b'-'

-- Above 0 and at most the maximum, which no NaN is.
unfoldable pub is_limit : {Number : Type 0} → Floats Number → ℕ → Number → Bool
is_limit floats maximum x =
    floats.ge (floats.of_nat maximum) x && not (floats.ge (floats.of_nat 0) x)

unfoldable pub are_arguments : {Number : Type 0} → Floats Number → Bool → Arguments Number → Bool
unfolding is_id_character is_limit
are_arguments floats is_root a =
    is_root
    && str_eq a.root "/var/lib/edgelab-worker"
    && valid_digest a.image
    && not (ltb a.size 1)
    && not (ltb max_blob a.size)
    && matches_class is_id_character 1 64 a.id
    && is_limit floats 80 a.data_limit
    && is_limit floats 70 a.metadata_limit

module _ {Number : Type 0} (floats : Floats Number) (tools : Tools) (h : Host) where
  -- storage{*root, p, *dataLimit, *metadataLimit}
  unfoldable pub limits_of : Arguments Number → PoolFile → Limits Number
  limits_of a p = record {
    pool_uuid = p.uuid;
    data_limit = a.data_limit;
    metadata_limit = a.metadata_limit;
  }

  -- What every run checks, the extraction child's too.
  unfoldable pub check_worker : Arguments Number → List LogicalVolume → Outcome StartError PoolFile
  unfolding are_arguments limits_of
  check_worker a volumes = do
    fail_if (not (are_arguments floats h.is_root a)) invalid_arguments
    fail_if (not h.is_trusted) untrusted_directory
    p ← expect unreadable_pool h.pool_file
    fail_if (not (is_text p.machine h.machine_id)) ownership_mismatch
    fail_if (not (is_text "/var/lib/edgelab-worker/disk" (h.backing p.device))) outside_allowlist
    fail_if (is_error (inspect floats (limits_of a p) tools "pool" volumes)) no_pool
    fail_if (not h.makes_cache) no_cache
    ok p

  -- The lock, the database and its table.
  unfoldable pub open_intents : Outcome StartError (Unit {0})
  open_intents = do
    fail_if (not h.opens_lock || not h.is_free) busy
    fail_if (not h.opens_database) unreadable_database
    fail_if (not (is_durable h.journal h.synchronous)) durability_mismatch
    fail_if (not h.makes_table) unreadable_database

  -- The mount of the image.
  unfoldable pub child_root : Arguments Number → String
  child_root a =
      str_append "/var/lib/edgelab-worker/mounts/image_"
        (slice (trim_prefix a.image "sha256:") 0 24)

  -- The child extracts into the mount of its own image alone.
  unfoldable pub check_child : Arguments Number → Bool → Outcome StartError (Unit {0})
  unfolding child_root
  check_child a is_mounted = do
    fail_if (not (str_eq a.unpack_root (child_root a))) invalid_root
    fail_if (not is_mounted) not_mounted
