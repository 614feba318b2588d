-- ===== src/Image/Layers.antt =====
-- The layers of an image (cmd/worker/image.go, loadLayers): manifest, configuration and archives.
pub mod Loaded
use edgelab.Shared.Table.{Table}
use edgelab.Shared.Outcome.{Outcome, err, expect, ok}
use edgelab.Image.{Contents, Descriptor, FetchError, Network, fetch, valid_digest}
use edgelab.Shared.{
  Bool, List, Option, String, [], if◌then◌else◌, leb, length, ltb, none, not, some, str_append,
  str_eq, suc, zero, ℕ, ◌&&◌, ◌+◌, ◌==◌, ◌||◌, ◌∷◌,
}
use edgelab.Image.Archive.{ArchiveError, Entry, Header, Progress, admit_all, max_expanded}
use edgelab.Shared.Action.{◌>>◌, Action, lift, pure, relabel, relabel_outcome, stop_if, ◌>>=◌}

pub record Manifest : Type 0 where
  pub schema_version : ℕ
  pub media_type : String
  pub config : Descriptor
  pub layers : List Descriptor

pub record ImageConfig : Type 0 where
  pub architecture : String
  pub os : String
  pub rootfs_type : String
  pub diff_ids : List String

-- encoding/json, compress/gzip with its limit of one byte more than is allowed, and archive/tar: a
-- header that cannot be read is none, and ends the archive.
pub record Decoding (Content : Type 0) : Type 0 where
  pub manifest : Content → Option Manifest
  pub config : Content → Option ImageConfig
  pub gunzip : Content → Option Content
  pub untar : Content → List (Option (Header Content))

pub data LoadError : Type 0 where
  fetching : FetchError → LoadError
  admitting : ArchiveError → LoadError
  undecodable unsupported_manifest unsupported_config unsupported_layer : LoadError
  expanded_limit diff_mismatch interrupted : LoadError

-- The points at which the process may be made to exit.
unfoldable pub layer_point : ℕ → String
layer_point zero = "layer-0"
layer_point (suc zero) = "layer-1"
layer_point (suc (suc zero)) = "layer-2"
layer_point (suc (suc (suc n))) = "layer-3"

unfoldable pub is_manifest : Manifest → Bool
is_manifest m =
    m.schema_version == 2
    && str_eq m.media_type "application/vnd.oci.image.manifest.v1+json"
    && leb 1 (length m.layers)
    && leb (length m.layers) 4
    && str_eq m.config.media_type "application/vnd.oci.image.config.v1+json"

unfoldable pub is_config : Manifest → ImageConfig → Bool
is_config m c =
    str_eq c.architecture "arm64"
    && str_eq c.os "linux"
    && str_eq c.rootfs_type "layers"
    && length c.diff_ids == length m.layers

module _ {Content : Type 0} (contents : Contents Content) (decoding : Decoding Content)
    (net : Network Content) (crash_after : String) where
  -- faultPoint
  unfoldable pub fault_point : String → Action (Table Content) LoadError (Unit {0})
  fault_point point = stop_if (str_eq crash_after point) interrupted

  unfoldable pub fetch_blob : Descriptor → Action (Table Content) LoadError Content
  fetch_blob d = relabel fetching (fetch contents net d)

  -- The archive of a blob, if it is what the configuration says.
  unfoldable pub open_layer : String → Content → Outcome LoadError Content
  open_layer diff_id blob = elim (decoding.gunzip blob) [
    | none ↦ err undecodable
    | some plain ↦
        if ltb max_expanded (contents.size plain)
        then err expanded_limit
        else if not (valid_digest diff_id)
            || not (str_eq (str_append "sha256:" (contents.digest plain)) diff_id)
        then err diff_mismatch
        else ok plain
  ]

  unfoldable pub read_entries : ℕ → ℕ → Content → Outcome LoadError (Progress Content)
  read_entries count total plain = relabel_outcome admitting (
      admit_all contents (record { count = count; total = total; seen = []; entries = [] })
        (decoding.untar plain))

  unfoldable pub load_layer :
      ℕ → ℕ → ℕ → Descriptor → String → Action (Table Content) LoadError (Progress Content)
  unfolding fault_point fetch_blob
  load_layer i count total d diff_id = do
    stop_if (not (str_eq d.media_type "application/vnd.oci.image.layer.v1.tar+gzip"))
        unsupported_layer
    blob ← fetch_blob d
    fault_point (layer_point i)
    plain ← lift (open_layer diff_id blob)
    lift (read_entries count total plain)

  -- The loop over the layers, with the counts that go on. There are as many diff IDs as layers.
  unfoldable pub load_all :
      ℕ
      → ℕ
      → ℕ
      → List Descriptor
      → List String
      → Action (Table Content) LoadError (List (List (Entry Content)))
  load_all i count total [] ids = pure []
  load_all i count total (d ∷ rest) [] = lift (err unsupported_config)
  load_all i count total (d ∷ rest) (diff_id ∷ ids) = load_layer i count total d diff_id >>= λ p.
      load_all (i + 1) p.count p.total rest ids >>= λ layers. pure (p.entries ∷ layers)

  unfoldable pub load_config : Manifest → Action (Table Content) LoadError ImageConfig
  unfolding fault_point fetch_blob
  load_config m = do
    blob ← fetch_blob m.config
    fault_point "config"
    config ← lift (expect undecodable (decoding.config blob))
    stop_if (not (is_config m config)) unsupported_config
    pure config

  unfoldable pub load_manifest : Descriptor → Action (Table Content) LoadError Manifest
  unfolding fault_point fetch_blob
  load_manifest d = do
    blob ← fetch_blob d
    fault_point "manifest"
    m ← lift (expect undecodable (decoding.manifest blob))
    stop_if (not (is_manifest m)) unsupported_manifest
    pure m

  unfoldable pub load_layers :
      Descriptor → Action (Table Content) LoadError (Manifest × List (List (Entry Content)))
  load_layers d = load_manifest d >>= λ m. load_config m >>= λ config.
      load_all 0 0 0 m.layers config.diff_ids >>= λ layers. pure (m, layers)
