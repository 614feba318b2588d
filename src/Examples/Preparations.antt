-- ===== src/Examples/Preparations.antt =====
-- The preparation of an operation on a group that has the pool alone.
use edgelab.Prepare.Registered.{IsRegistered, prepare-IsRegistered}
use edgelab.Shared.Table.{delete, insert, lookup}
use edgelab.Shared.Split.{split}
use edgelab.Image.Archive.{admit, is_reserved}
use edgelab.Prepare.Steps.{begin, extract_image, extract_layers, marker_at, put_tree, write_mark}
use edgelab.Image.Layers.{
  fetch_blob, is_config, is_manifest, layer_point, load_all, load_config, load_layer, load_layers,
  load_manifest, open_layer, read_entries,
}
use edgelab.Storage.Creation.{create, create_if_absent, create_new, mount, mount_at, unmount}
use edgelab.Prepare.Steps.{
  base_name, check_capacity, check_existing, check_mounted, check_snapshot, format, image_hash,
  inspect_volume, is_image, lvchange, on_cache, on_mounts, on_tree, on_volumes, put_filesystem,
  rebuild, rebuild_unless, register_snapshot, seal_origin, stage, take_snapshot, tree_at, unpack,
}
use edgelab.Shared.Paths.{base, clean, dir, has_path, is_within, same_path}
use edgelab.Image.Unpack.{
  apply_layer, apply_layers, change, clear_folder, clear_way, cut_at, cut_below, each,
  each_backwards, extract, finish_entry, is_blocked, is_file_at, is_folder_node, is_opaque,
  is_other_kind, make_folder, make_folders, make_way, place, remove_target, remove_tree, set_at,
  set_mode, set_time, white_out, with_mode, with_time, write_file, written, target_of, mode_of,
  stamp, stamp_new, timed, write_part, write_whole,
}
use edgelab.Image.Archive.{
  admit_all, admit_named, admit_path, check_name, escapes, has_attributes, has_parent_part,
  is_directory_kind, is_regular_empty, is_regular_kind, is_supported, is_whiteout, read_content,
}
use edgelab.Image.{
  accept_response, cached_bytes, download, durable_file, fetch, is_hex_digit, read_file,
  take_cached, valid_digest,
}
use edgelab.Storage.{
  LogicalVolume, capacity, contains, find_volume, found_valid, has_size, inspect, is_ours,
  within_limits,
}
use edgelab.Prepare.Owned.{IsOwned, work_guarded, HasExtracted, IsAlone}
use edgelab.Shared.Pragmas.{is_text}
use edgelab.Prepare.Worker.{work}
use edgelab.Prepare.Start.{
  Arguments, Host, PoolFile, are_arguments, check_worker, is_id_character, is_limit, limits_of,
}
use edgelab.Prepare.Rows.{KeepsRows}
use edgelab.Shared.{
  String, List, [], false, if◌then◌else◌, refl, some, str_eq, ℕ, ◌∷◌, ◌≡◌, true, ◌⊎◌,
}
use edgelab.Prepare.Formats.{AreUnsealed, prepare-AreUnsealed}
use edgelab.Shared.Outcome.{ok}
use edgelab.Prepare.Run.{
  prepare, carry_on, create_base, ensure_image, image_tag, lay_out, noted, snapshot_name,
  snapshot_tag, verify,
}
use edgelab.Prepare.{
  Conditions, Change, activate, seal, OperationRow, Setup, World, count_others, has_attribute,
  insert_missing, is_row_of, is_valid_tree, make_writable, new_row, registered, update_row,
}
use edgelab.Examples.Images.{decoding, image, kernel, network, texts}
use edgelab.Examples.Volumes.{limits, pool, tools, whole}

-- lvchange leaves the attributes that it is asked for.
abbrev attributes_after : Change → String
attributes_after seal = "Vri-a-tz--"
attributes_after make_writable = "Vwi-a-tz--"
attributes_after activate = "Vwi-a-tz--"

abbrev changed : Change → String → List LogicalVolume → List LogicalVolume
changed change name [] = []
changed change name (v ∷ rest) =
    (if str_eq v.name name then record v { attributes = attributes_after change } else v)
    ∷ changed change name rest

abbrev conditions : Conditions String
conditions = record {
  fails = λ call. false;
  changed = changed;
  is_ext4 = false;
  tree_digest = λ t. some "tree";
  operation_hash = "00000000000000000000000000000000000000000000000000000000000000aa";
  crash_after = "";
}

abbrev setup : Setup String ℕ
setup = record {
  contents = texts;
  decoding = decoding;
  net = network;
  kernel = kernel;
  floats = whole;
  limits = limits;
  tools = tools;
  conditions = conditions;
  request = record { id = "op-1"; image = image };
}

abbrev other_row : OperationRow
other_row = record {
  image = "sha256:another";
  size = 64;
  phase = registered;
  snapshot = "operation_other";
  uuid = "other";
  has_error = false;
}

abbrev world : World String
world = record {
  operations = ("op-0", other_row) ∷ [];
  cache = [];
  volumes = pool ∷ [];
  mounts = [];
  filesystems = [];
  formats = [];
}

is_prepared : (prepare setup world).1 ≡ ok tt
unfolding accept_response admit admit_all admit_named admit_path apply_layer apply_layers base
    base_name begin cached_bytes capacity carry_on change check_capacity check_existing
    check_mounted check_name check_snapshot clean clear_folder clear_way contains count_others
    create create_base create_if_absent create_new cut_at cut_below dir download durable_file each
    each_backwards ensure_image escapes extract fetch fetch_blob find_volume finish_entry format
    found_valid has_attribute has_attributes has_parent_part has_path has_size image_hash image_tag
    insert_missing inspect inspect_volume is_blocked is_config is_directory_kind is_file_at
    is_folder_node is_hex_digit is_image is_manifest is_opaque is_other_kind is_ours
    is_regular_empty is_regular_kind is_row_of is_supported is_valid_tree is_whiteout is_within
    lay_out layer_point load_all load_config load_layer load_layers load_manifest lvchange
    make_folder make_folders make_way mount mount_at new_row noted on_cache on_mounts on_tree
    on_volumes open_layer place prepare put_filesystem read_content read_entries read_file rebuild
    rebuild_unless register_snapshot remove_target remove_tree same_path seal_origin set_at set_mode
    set_time snapshot_name snapshot_tag split stage take_cached take_snapshot tree_at unmount unpack
    extract_image extract_layers write_mark put_tree marker_at update_row valid_digest verify
    white_out with_mode with_time within_limits write_file write_part write_whole stamp_new stamp
    timed mode_of written lookup insert is_reserved delete target_of
is_prepared = refl

prepare-AreUnsealed_example : AreUnsealed (prepare setup world).0.formats
prepare-AreUnsealed_example = prepare-AreUnsealed setup world tt

prepare-IsRegistered_example : IsRegistered setup (prepare setup world).0.operations
prepare-IsRegistered_example = prepare-IsRegistered setup world is_prepared

abbrev arguments : Arguments ℕ
arguments = record {
  root = "/var/lib/edgelab-worker";
  id = "op-1";
  image = image.digest;
  size = image.size;
  data_limit = 80;
  metadata_limit = 70;
  unpack_root = "";
}

abbrev pool_file : PoolFile
pool_file = record { machine = "machine-1"; device = "/dev/loop7"; uuid = "pool-uuid" }

abbrev host : Host
host = record {
  is_root = true;
  is_trusted = true;
  pool_file = some pool_file;
  machine_id = some "machine-1";
  backing = λ device. some "/var/lib/edgelab-worker/disk";
  makes_cache = true;
  opens_lock = true;
  is_free = true;
  opens_database = true;
  journal = some "wal";
  synchronous = some 2;
  makes_table = true;
}

is_started : check_worker whole tools host arguments (pool ∷ []) ≡ ok pool_file
unfolding is_text check_worker are_arguments is_id_character is_limit limits_of inspect find_volume
    contains split valid_digest is_hex_digit
is_started = refl

work_guarded_example :
    ((work setup host arguments world).0 ≡ world)
    ⊎ ((p : PoolFile) × IsOwned whole host arguments p
        × ((IsAlone host arguments
              × KeepsRows "op-1" world.operations (work setup host arguments world).0.operations)
            ⊎ HasExtracted setup host arguments p world (work setup host arguments world).0))
work_guarded_example = work_guarded setup host arguments world
