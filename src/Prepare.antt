-- ===== src/Prepare.antt =====
-- The preparation of an operation (cmd/worker/main.go): from a request to a registered, writable
-- snapshot of a sealed image, with the points at which the process may be made to exit.
pub mod Steps
pub mod Start
pub mod Worker
pub mod Owned
pub mod Run
pub mod Rows
pub mod Kept
pub mod Registered
pub mod Formats
use edgelab.Shared.Text.{codes}
use edgelab.Shared.Split.{char_at}
use edgelab.Shared.Table.{Table, insert, lookup}
use edgelab.Storage.{LogicalVolume, Floats, Limits, Tools}
use edgelab.Image.Layers.{LoadError, Decoding}
use edgelab.Image.Unpack.{FileError, Tree, Kernel}
use edgelab.Image.{Descriptor, Contents, Network}
use edgelab.Shared.{
  Bool, List, Option, String, [], false, if◌then◌else◌, none, some, str_eq, suc, true, ℕ, ◌&&◌,
  ◌==◌, ◌∷◌,
}

pub data Phase : Type 0 where
  requested verified sealed registered : Phase

-- A row of `operations`; the error is noted by whether there is one.
pub record OperationRow : Type 0 where
  pub image : String
  pub size : ℕ
  pub phase : Phase
  pub snapshot : String
  pub uuid : String
  pub has_error : Bool

-- What a volume's filesystem holds: the tree, and the marker with the manifest and the tree's digest.
pub record Filesystem (Content : Type 0) : Type 0 where
  pub tree : Tree Content
  pub marker : Option (String × String)

-- What outlives a run. `formats` logs what mkfs.ext4 has been run on.
pub record World (Content : Type 0) : Type 0 where
  pub operations : Table OperationRow
  pub cache : Table Content
  pub volumes : List LogicalVolume
  pub mounts : Table String
  pub filesystems : Table (Filesystem Content)
  pub formats : List (Option LogicalVolume)

-- The calls of a run that may fail, those of the parts apart.
pub data Call : Type 0 where
  count_rows insert_row read_row save_phase save_error save_registration : Call
  mkfs seal_volume open_volume activate_volume stat_device write_marker run_child : Call
  find_mount change_root : Call

-- What lvchange is asked for: -pr, -prw and -ay.
pub data Change : Type 0 where
  seal make_writable activate : Change

-- What a run meets: the calls that fail, what lvchange makes of the group, what blkid finds, the
-- digest of a tree, that of the operation's identity, and the point at which the process exits.
pub record Conditions (Content : Type 0) : Type 0 where
  pub fails : Call → Bool
  pub changed : Change → String → List LogicalVolume → List LogicalVolume
  pub is_ext4 : Bool
  pub tree_digest : Tree Content → Option String
  pub operation_hash : String
  pub crash_after : String

pub record Request : Type 0 where
  pub id : String
  pub image : Descriptor

-- All that a run is given.
pub record Setup (Content Number : Type 0) : Type 0 where
  pub contents : Contents Content
  pub decoding : Decoding Content
  pub net : Network Content
  pub kernel : Kernel
  pub floats : Floats Number
  pub limits : Limits Number
  pub tools : Tools
  pub conditions : Conditions Content
  pub request : Request

pub data PrepareError : Type 0 where
  capacity_reached operation_conflict not_saved interrupted : PrepareError
  loading storing sealed_mismatch tool_failed child_failed : PrepareError
  bad_attributes uuid_changed not_active not_registered : PrepareError

abbrev pub max_others : ℕ
max_others = 128

-- The rows of other operations.
unfoldable pub count_others : String → Table OperationRow → ℕ
count_others id [] = 0
count_others id ((name, row) ∷ rest) =
    let others = count_others id rest in if str_eq name id then others else suc others

unfoldable pub new_row : Descriptor → String → OperationRow
new_row image snapshot = record {
  image = image.digest;
  size = image.size;
  phase = requested;
  snapshot = snapshot;
  uuid = "";
  has_error = false;
}

-- INSERT OR IGNORE
unfoldable pub insert_missing : String → OperationRow → Table OperationRow → Table OperationRow
insert_missing id row rows = elim (lookup id rows) [ none ↦ insert id row rows | some old ↦ rows ]

-- UPDATE operations SET … WHERE id=?
unfoldable pub update_row :
    (OperationRow → OperationRow) → String → Table OperationRow → Table OperationRow
update_row f id rows = elim (lookup id rows) [ none ↦ rows | some row ↦ insert id (f row) rows ]

unfoldable pub is_row_of : Descriptor → String → OperationRow → Bool
is_row_of image snapshot row =
    str_eq row.image image.digest && row.size == image.size && str_eq row.snapshot snapshot

-- volume.Attributes[n] == c
unfoldable pub has_attribute : ℕ → ℕ → LogicalVolume → Bool
has_attribute n c v = elim (char_at n (codes v.attributes)) [ none ↦ false | some d ↦ d == c ]

-- The marker names the image, and the tree has the digest that it says.
unfoldable pub is_valid_tree : String → Option String → Option (String × String) → Bool
is_valid_tree image hash none = false
is_valid_tree image none (some (manifest, tree)) = false
is_valid_tree image (some hash) (some (manifest, tree)) = str_eq manifest image && str_eq hash tree

unfoldable pub is_interruption : PrepareError → Bool
is_interruption interrupted = true
is_interruption not_saved = true
is_interruption _ = false

unfoldable pub load_error : LoadError → PrepareError
load_error LoadError.interrupted = interrupted
load_error _ = loading

-- The child's exit: an interruption within its files is one of the parent too.
unfoldable pub file_error : FileError → PrepareError
file_error FileError.crashed = interrupted
file_error _ = child_failed
