-- ===== src/Examples/Images.antt =====
-- An image with one layer that is loaded and extracted: contents are texts, each its own hash.
use edgelab.Shared.Split.{split}
use edgelab.Image.Unpack.Frame.{apply_layers-Leaves}
use edgelab.Shared.Text.{trim_prefix}
use edgelab.Image.Unpack.{
  Kernel, Tree, apply_layer, apply_layers, change, clear_folder, clear_way, cut_at, cut_below, each,
  each_backwards, extract, file, finish_entry, is_blocked, is_file_at, is_folder_node, is_opaque,
  is_other_kind, make_folder, make_folders, make_way, place, remove_target, remove_tree, set_at,
  set_mode, set_time, target_of, white_out, with_mode, with_time, write_file, written, kept_node,
  lose, remove_node, remove_part, stamp, stamp_new, thin_below, timed, mode_of, write_part,
  write_whole,
}
use edgelab.Image.Layers.Loaded.{IsImage, load_layers-IsImage}
use edgelab.Shared.Paths.{FilePath, base, clean, dir, has_path, is_within, same_path}
use edgelab.Image.Layers.{
  Decoding, Manifest, fetch_blob, is_config, is_manifest, layer_point, load_all, load_config,
  load_layer, load_layers, load_manifest, open_layer, read_entries,
}
use edgelab.Shared.{
  Bool, List, Option, String, [], false, len, none, refl, some, str_append, true, ◌∷◌, ◌≡◌,
}
use edgelab.Image.Unpack.Modes.{AreFinished, apply_layer-AreFinished}
use edgelab.Shared.Outcome.{ok}
use edgelab.Shared.Table.{insert, lookup}
use edgelab.Image.Layers.{fault_point}
use edgelab.Image.Archive.{
  admit, directory, regular, Entry, Header, Kind, Progress, admit_all, admit_named, admit_path,
  check_name, escapes, has_attributes, has_parent_part, is_directory_kind, is_regular_empty,
  is_regular_kind, is_reserved, is_supported, is_whiteout, paths_of, read_content,
}
use edgelab.Image.{
  Contents, Descriptor, Network, accept_response, cached_bytes, download, durable_file, fetch,
  is_hex_digit, read_file, take_cached, valid_digest,
}

abbrev manifest_blob : String
manifest_blob = "0000000000000000000000000000000000000000000000000000000000000001"

abbrev config_blob : String
config_blob = "0000000000000000000000000000000000000000000000000000000000000002"

abbrev layer_blob : String
layer_blob = "0000000000000000000000000000000000000000000000000000000000000003"

abbrev describe : String → String → Descriptor
describe media_type blob = record {
  media_type = media_type;
  digest = str_append "sha256:" blob;
  size = 64;
}

abbrev pub image : Descriptor
image = describe "application/vnd.oci.image.manifest.v1+json" manifest_blob

abbrev manifest : Manifest
manifest = record {
  schema_version = 2;
  media_type = "application/vnd.oci.image.manifest.v1+json";
  config = describe "application/vnd.oci.image.config.v1+json" config_blob;
  layers = describe "application/vnd.oci.image.layer.v1.tar+gzip" layer_blob ∷ [];
}

abbrev header : String → Kind → String → Header String
header name kind content = record {
  name = name;
  kind = kind;
  uid = 0;
  gid = 0;
  mode = 420;
  pax_records = 0;
  size = len content;
  modified = 7;
  content = some content;
}

abbrev archive : List (Option (Header String))
archive =
    some (header "./" directory "")
    ∷ some (header "srv/" directory "")
    ∷ some (header "srv/./page" regular "hi")
    ∷ some (header "srv/.wh.old" regular "")
    ∷ []

-- A layer unpacks to itself.
abbrev pub decoding : Decoding String
decoding = record {
  manifest = λ blob. some manifest;
  config = λ blob. some (record {
    architecture = "arm64";
    os = "linux";
    rootfs_type = "layers";
    diff_ids = str_append "sha256:" layer_blob ∷ [];
  });
  gunzip = λ blob. some blob;
  untar = λ plain. archive;
}

abbrev pub texts : Contents String
texts = record { digest = λ s. s; size = len; limit = λ n s. s }

-- The network answers a path with the hash that it names.
abbrev pub network : Network String
network = record {
  fails = λ x. false;
  get = λ path. some (record { status = 200; body = trim_prefix path "/blobs/sha256/" });
}

abbrev entry : FilePath → Bool → String → Entry String
entry path is_directory content = record {
  path = path;
  is_directory = is_directory;
  mode = 420;
  content = content;
  modified = 7;
}

abbrev page : FilePath
page = "srv" ∷ "page" ∷ []

abbrev entries : List (Entry String)
entries =
    entry ("srv" ∷ []) true ""
    ∷ entry page false "hi"
    ∷ entry ("srv" ∷ ".wh.old" ∷ []) false ""
    ∷ []

abbrev started : Progress String
started = record { count = 0; total = 0; seen = []; entries = [] }

abbrev finished : Progress String
finished = record { count = 4; total = 2; seen = paths_of entries; entries = entries }

is_admitted : admit_all texts started archive ≡ ok finished
unfolding admit_all admit admit_named admit_path read_content check_name is_reserved is_supported
    has_attributes is_whiteout is_regular_empty is_regular_kind is_directory_kind escapes
    has_parent_part split clean base has_path same_path
is_admitted = refl

is_loaded : (load_layers texts decoding network "" image []).1 ≡ ok (manifest, entries ∷ [])
unfolding load_layers load_manifest load_config load_all load_layer open_layer read_entries
    fault_point fetch_blob layer_point is_manifest is_config fetch take_cached download durable_file
    accept_response read_file cached_bytes valid_digest is_hex_digit lookup insert admit_all admit
    admit_named admit_path read_content check_name is_reserved is_supported has_attributes
    is_whiteout is_regular_empty is_regular_kind is_directory_kind escapes has_parent_part split
    clean base has_path same_path
is_loaded = refl

load_layers-IsImage_example : IsImage texts decoding network "" image manifest (entries ∷ [])
load_layers-IsImage_example =
    load_layers-IsImage texts decoding network "" image [] manifest (entries ∷ []) is_loaded

abbrev pub kernel : Kernel
kernel = record {
  fails = λ call p. false;
  remnant = λ p. kept_node;
  loses_entries = λ p. true;
  leaves_part = λ p. false;
  created_mode = λ mode. mode;
  now = 9;
  crash_partial = false;
}

-- Of the old files, one is whited out and one is not.
abbrev old_tree : Tree String
old_tree =
    set_at ("srv" ∷ "old" ∷ []) (file 420 1 "old")
      (set_at ("etc" ∷ []) (file 420 1 "kept") (λ p. none))

apply_layers-Leaves_example :
    (apply_layers kernel (entries ∷ []) old_tree).0 ("etc" ∷ []) ≡ old_tree ("etc" ∷ [])
unfolding is_opaque is_whiteout target_of is_within dir base same_path
apply_layers-Leaves_example = apply_layers-Leaves ("etc" ∷ []) kernel (entries ∷ []) old_tree refl

is_extracted : (apply_layer kernel entries old_tree).1 ≡ ok tt
unfolding apply_layer each each_backwards white_out extract finish_entry set_mode set_time change
    place make_way clear_way is_other_kind write_file written make_folders make_folder remove_target
    remove_tree clear_folder is_blocked is_file_at is_folder_node set_at cut_at cut_below stamp
    stamp_new write_part write_whole mode_of timed lose remove_part remove_node thin_below with_mode
    with_time is_opaque is_whiteout target_of is_within dir base same_path
is_extracted = refl

apply_layer-AreFinished_example : AreFinished (apply_layer kernel entries old_tree).0 entries
unfolding has_path same_path
apply_layer-AreFinished_example =
    apply_layer-AreFinished kernel entries old_tree (refl, (refl, (refl, tt))) is_extracted
