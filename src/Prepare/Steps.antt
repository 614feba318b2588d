-- ===== src/Prepare/Steps.antt =====
-- The steps of an operation's preparation in their order (cmd/worker/main.go).
use edgelab.Shared.Text.{trim_prefix}
use edgelab.Registry.{snapshot}
use edgelab.Image.Archive.{max_expanded, Entry}
use edgelab.Storage.Creation.{create, mount, unmount}
use edgelab.Shared.Table.{Table, insert, lookup}
use edgelab.Shared.Outcome.{Outcome, err, expect, ok}
use edgelab.Storage.{LogicalVolume, StorageError, capacity, find_volume, inspect}
use edgelab.Image.Unpack.{FileError, Tree, apply_layers, change}
use edgelab.Image.Layers.{LoadError, load_layers}
use edgelab.Shared.{
  Bool, List, Option, String, false, if◌then◌else◌, leb, len, ltb, none, not, some, str_append,
  str_eq, ℕ, ◌&&◌, ◌∷◌,
}
use edgelab.Shared.Action.{
  ◌>>=◌, ◌>>◌, Action, attempt, gets, lift, modify, pure, relabel, stop_if, zoom,
}
use Prim.Native.String.{slice}
use edgelab.Prepare.{
  Change, PrepareError, World, Call, Filesystem, OperationRow, Phase, activate, activate_volume,
  bad_attributes, capacity_reached, child_failed, count_others, count_rows, file_error,
  has_attribute, insert_missing, insert_row, interrupted, is_row_of, is_valid_tree, make_writable,
  max_others, mkfs, new_row, not_active, not_registered, not_saved, open_volume, operation_conflict,
  read_row, registered, run_child, save_phase, save_registration, seal, seal_volume,
  sealed_mismatch, stat_device, storing, tool_failed, update_row, uuid_changed, write_marker, Setup,
  change_root,
}

module _ {Content Number : Type 0} (x : Setup Content Number) where
  abbrev Step : Type 0 → Type 0
  Step A = Action (World Content) PrepareError A

  unfoldable pub image_hash : String
  image_hash = trim_prefix x.request.image.digest "sha256:"

  -- "image_" and "operation_" with 24 hex digits name the volumes; with all of them, the tags.
  unfoldable pub base_name : String
  unfolding image_hash
  base_name = str_append "image_" (slice image_hash 0 24)

  unfoldable pub fault_point : String → Step (Unit {0})
  fault_point point = stop_if (str_eq x.conditions.crash_after point) interrupted

  unfoldable pub on_volumes : {A : Type 0} → Action (List LogicalVolume) StorageError A → Step A
  on_volumes m = zoom (λ w. w.volumes) (λ v w. record w { volumes = v }) (relabel (λ e. storing) m)

  unfoldable pub on_mounts : {A : Type 0} → Action (Table String) StorageError A → Step A
  on_mounts m = zoom (λ w. w.mounts) (λ m w. record w { mounts = m }) (relabel (λ e. storing) m)

  unfoldable pub on_cache :
      {A : Type 0} → (LoadError → PrepareError) → Action (Table Content) LoadError A → Step A
  on_cache f m = zoom (λ w. w.cache) (λ cache w. record w { cache = cache }) (relabel f m)

  unfoldable pub update : (OperationRow → OperationRow) → Step (Unit {0})
  update f = modify (λ w. record w { operations = update_row f x.request.id w.operations })

  -- Up to the check that the stored row is of this request; the UUID that the row has.
  unfoldable pub begin : String → Step String
  unfolding insert_missing
  begin snapshot = do
    stop_if (x.conditions.fails count_rows) not_saved
    rows ← gets (λ w. w.operations)
    stop_if (leb max_others (count_others x.request.id rows)) capacity_reached
    stop_if (x.conditions.fails insert_row) not_saved
    modify (λ w. record w {
      operations = insert_missing x.request.id (new_row x.request.image snapshot) w.operations;
    })
    stop_if (x.conditions.fails read_row) not_saved
    after ← gets (λ w. lookup x.request.id w.operations)
    row ← lift (expect not_saved after)
    stop_if (not (is_row_of x.request.image snapshot row)) operation_conflict
    pure row.uuid

  unfoldable pub stage : String → Phase → Step (Unit {0})
  unfolding update fault_point
  stage point phase = do
    stop_if (x.conditions.fails save_phase) not_saved
    update (λ row. record row { phase = phase; has_error = false })
    fault_point point

  unfoldable pub check_capacity : ℕ → Step (Unit {0})
  unfolding on_volumes
  check_capacity reserve =
      on_volumes (gets (λ v. v) >>= λ v. lift (capacity x.floats x.limits x.tools reserve v))

  -- What is on the mounted image.
  unfoldable pub is_image : Option (Filesystem Content) → Bool
  is_image none = false
  is_image (some fs) =
      is_valid_tree x.request.image.digest (x.conditions.tree_digest fs.tree) fs.marker

  unfoldable pub check_mounted : Outcome PrepareError (Unit {0}) → Step Bool
  unfolding on_mounts is_image
  check_mounted (err e) = do stop_if x.conditions.is_ext4 e; pure false
  check_mounted (ok u) = do
    fs ← gets (λ w. lookup base_name w.filesystems)
    on_mounts (unmount x.floats x.limits x.tools base_name)
    pure (is_image fs)

  -- Whether the base volume holds the image already.
  unfoldable pub check_existing : Step Bool
  unfolding on_mounts check_mounted
  check_existing = attempt (on_mounts (mount x.floats x.limits x.tools base_name)) >>= check_mounted

  unfoldable pub format : Step (Unit {0})
  format = do
    stop_if (x.conditions.fails mkfs) tool_failed
    modify (λ w. record w {
      filesystems = insert base_name (record { tree = λ p. none; marker = none }) w.filesystems;
      formats = find_volume base_name w.volumes ∷ w.formats;
    })

  unfoldable pub tree_at : World Content → Tree Content
  tree_at w = elim (lookup base_name w.filesystems) [ none ↦ λ p. none | some fs ↦ fs.tree ]

  unfoldable pub put_filesystem : Filesystem Content → World Content → World Content
  put_filesystem fs w = record w { filesystems = insert base_name fs w.filesystems }

  unfoldable pub marker_at : World Content → Option (String × String)
  marker_at w = elim (lookup base_name w.filesystems) [ none ↦ none | some fs ↦ fs.marker ]

  unfoldable pub put_tree : Tree Content → World Content → World Content
  unfolding put_filesystem marker_at
  put_tree t w = put_filesystem (record { tree = t; marker = marker_at w }) w

  unfoldable pub on_tree : {A : Type 0} → Action (Tree Content) FileError A → Step A
  on_tree m = zoom tree_at put_tree (relabel file_error m)

  -- The marker with the tree's digest.
  unfoldable pub write_mark : Tree Content → Step (Unit {0})
  unfolding put_filesystem
  write_mark t = do
    hash ← lift (expect child_failed (x.conditions.tree_digest t))
    stop_if (x.conditions.fails write_marker) child_failed
    modify (put_filesystem (record { tree = t; marker = some (x.request.image.digest, hash) }))

  unfoldable pub extract_layers : List (List (Entry Content)) → Step (Unit {0})
  unfolding on_tree put_tree tree_at write_mark
  extract_layers layers = do
    stop_if (x.conditions.fails change_root) child_failed
    on_tree (apply_layers x.kernel layers)
    gets tree_at >>= write_mark

  -- What the child does: the layers, then the marker.
  unfoldable pub extract_image : Step (Unit {0})
  unfolding on_cache extract_layers
  extract_image = do
    (m, layers) ←
        on_cache (λ e. child_failed)
          (load_layers x.contents x.decoding x.net x.conditions.crash_after x.request.image)
    extract_layers layers

  -- The child process, which may fail in its own start too.
  unfoldable pub unpack : Step (Unit {0})
  unfolding extract_image
  unpack = stop_if (x.conditions.fails run_child) child_failed >> extract_image

  -- The image is laid out anew, which a sealed volume forbids.
  unfoldable pub rebuild : LogicalVolume → Step (Unit {0})
  unfolding check_capacity format fault_point on_mounts unpack
  rebuild origin = do
    stop_if (has_attribute 1 b'r' origin) sealed_mismatch
    check_capacity max_expanded
    format
    fault_point "format"
    on_mounts (mount x.floats x.limits x.tools base_name)
    fault_point "mount"
    unpack
    fault_point "unpack"
    on_mounts (unmount x.floats x.limits x.tools base_name)
    fault_point "unmounted"

  unfoldable pub rebuild_unless : Bool → LogicalVolume → Step (Unit {0})
  unfolding rebuild
  rebuild_unless valid origin = if valid then pure tt else rebuild origin

  unfoldable pub lvchange : Call → Change → String → Bool → Step (Unit {0})
  lvchange call change name is_done =
      if is_done
      then pure tt
      else (stop_if (x.conditions.fails call) tool_failed
          >> modify (λ w. record w { volumes = x.conditions.changed change name w.volumes }))

  unfoldable pub inspect_volume : String → ℕ → Step LogicalVolume
  unfolding on_volumes
  inspect_volume name attributes = do
    v ← on_volumes (gets (λ v. v) >>= λ v. lift (inspect x.floats x.limits x.tools name v))
    stop_if (ltb (len v.attributes) attributes) bad_attributes
    pure v

  unfoldable pub seal_origin : Step (Unit {0})
  unfolding inspect_volume lvchange fault_point
  seal_origin = do
    origin ← inspect_volume base_name 2
    lvchange seal_volume seal base_name (has_attribute 1 b'r' origin)
    fault_point "seal"

  unfoldable pub check_snapshot : String → LogicalVolume → Step (Unit {0})
  check_snapshot old_uuid snap = do
    stop_if (not (str_eq old_uuid "") && not (str_eq old_uuid snap.uuid)) uuid_changed
    stop_if (ltb (len snap.attributes) 2) bad_attributes

  -- The snapshot, writable and active.
  unfoldable pub take_snapshot : String → String → String → Step LogicalVolume
  unfolding on_volumes check_snapshot lvchange inspect_volume fault_point
  take_snapshot name tag old_uuid = do
    snap ← on_volumes (create x.floats x.limits x.tools name tag base_name)
    fault_point "snapshot"
    check_snapshot old_uuid snap
    lvchange open_volume make_writable name (has_attribute 1 b'w' snap)
    fault_point "writable"
    now ← inspect_volume name 5
    lvchange activate_volume activate name (has_attribute 4 b'a' now)
    stop_if (x.conditions.fails stat_device) not_active
    fault_point "activated"
    pure now

  unfoldable pub register_snapshot : String → Step (Unit {0})
  unfolding update fault_point
  register_snapshot uuid = do
    stop_if (x.conditions.fails save_registration) not_registered
    update (λ row. record row { phase = registered; uuid = uuid; has_error = false })
    fault_point "registered"
