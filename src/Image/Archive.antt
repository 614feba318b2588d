-- ===== src/Image/Archive.antt =====
-- The entries of a layer's archive, and which of them are taken (cmd/worker/image.go, loadLayers).
pub mod Safe
pub mod Admitted
pub mod Taken
use edgelab.Shared.Split.{split}
use edgelab.Shared.Text.{all_codes, codes, trim_suffix}
use edgelab.Shared.Outcome.{Outcome, err, expect, fail_if, ok, ◌>>=◌, ◌>>◌}
use edgelab.Shared.Paths.{FilePath, base, clean, has_path}
use edgelab.Image.{Contents}
use edgelab.Shared.{
  Bool, List, Option, String, [], false, if◌then◌else◌, ltb, none, not, some, starts_with, str_eq,
  true, ℕ, ◌%◌, ◌&&◌, ◌++◌, ◌+◌, ◌/◌, ◌==◌, ◌||◌, ◌∷◌,
}

-- tar.TypeReg, tar.TypeDir, and every other type.
pub data Kind : Type 0 where
  regular directory other_type : Kind

-- A header of the archive with its content, if that can be read. archive/tar gives no negative size.
pub record Header (Content : Type 0) : Type 0 where
  pub name : String
  pub kind : Kind
  pub uid : ℕ
  pub gid : ℕ
  pub mode : ℕ
  pub pax_records : ℕ
  pub size : ℕ
  pub modified : ℕ
  pub content : Option Content

-- `entry`, its name as its parts.
pub record Entry (Content : Type 0) : Type 0 where
  pub path : FilePath
  pub is_directory : Bool
  pub mode : ℕ
  pub content : Content
  pub modified : ℕ

abbrev pub paths_of : {Content : Type 0} → List (Entry Content) → List FilePath
paths_of [] = []
paths_of (e ∷ rest) = e.path ∷ paths_of rest

pub data ArchiveError : Type 0 where
  file_count root_entry path_escape reserved_path unsupported_type : ArchiveError
  unsupported_attributes expanded_size truncated_entry invalid_whiteout unreadable : ArchiveError

abbrev pub max_files : ℕ
max_files = 4096

-- 64<<20
abbrev pub max_expanded : ℕ
max_expanded = 67108864

-- The counts go on from layer to layer; the names seen and the entries are of one layer.
pub record Progress (Content : Type 0) : Type 0 where
  pub count : ℕ
  pub total : ℕ
  pub seen : List FilePath
  pub entries : List (Entry Content)

unfoldable pub is_directory_kind : Kind → Bool
is_directory_kind regular = false
is_directory_kind directory = true
is_directory_kind other_type = false

unfoldable pub is_supported : Kind → Bool
is_supported regular = true
is_supported directory = true
is_supported other_type = false

unfoldable pub is_regular_kind : Kind → Bool
is_regular_kind regular = true
is_regular_kind directory = false
is_regular_kind other_type = false

unfoldable pub has_parent_part : List String → Bool
has_parent_part [] = false
has_parent_part (part ∷ rest) = str_eq part ".." || has_parent_part rest

-- path.IsAbs, a backslash, or a part that is `..`.
unfoldable pub escapes : String → Bool
escapes name =
    starts_with name "/"
    || not (all_codes (λ c. not (c == 92)) (codes name))
    || has_parent_part (split b'/' name)

-- lost+found, what is below it, and the names that start with .edgelab.
unfoldable pub is_reserved : FilePath → Bool
is_reserved [] = true
is_reserved (first ∷ rest) = str_eq first "lost+found" || starts_with first ".edgelab"

-- The path of an entry, or none for the root directory, which is passed over.
unfoldable pub check_name :
    {Content : Type 0} → Header Content → Outcome ArchiveError (Option FilePath)
check_name h =
    let name = trim_suffix h.name "/" in
    if str_eq name "." || str_eq name ""
    then (if is_directory_kind h.kind then ok none else err root_entry)
    else if escapes name
    then err path_escape
    else ok (some (clean (split b'/' name)))

-- h.Uid != 0 || h.Gid != 0 || h.Mode&07000 != 0 || len(h.PAXRecords) > 0
unfoldable pub has_attributes : {Content : Type 0} → Header Content → Bool
has_attributes h =
    not (h.uid == 0)
    || not (h.gid == 0)
    || not ((h.mode / 512) % 8 == 0)
    || not (h.pax_records == 0)

unfoldable pub is_whiteout : FilePath → Bool
is_whiteout p = starts_with (base p) ".wh."

unfoldable pub is_regular_empty : {Content : Type 0} → Header Content → Bool
is_regular_empty h = is_regular_kind h.kind && h.size == 0

module _ {Content : Type 0} (contents : Contents Content) where
  unfoldable pub read_content : Header Content → Outcome ArchiveError Content
  read_content h = do
    content ← expect unreadable h.content
    fail_if (not (contents.size content == h.size)) truncated_entry
    ok content

  -- What follows the name: each check in its order, and then the entry.
  unfoldable pub admit_path :
      Progress Content → Header Content → FilePath → Outcome ArchiveError (Progress Content)
  unfolding read_content
  admit_path p h path = do
    fail_if (is_reserved path || has_path path p.seen) reserved_path
    fail_if (not (is_supported h.kind)) unsupported_type
    fail_if (has_attributes h) unsupported_attributes
    fail_if (ltb max_expanded h.size || ltb max_expanded (p.total + h.size)) expanded_size
    content ← read_content h
    fail_if (is_whiteout path && not (is_regular_empty h)) invalid_whiteout
    ok (record {
      count = p.count;
      total = p.total + h.size;
      seen = p.seen ++ path ∷ [];
      entries =
          p.entries
          ++ record {
            path = path;
            is_directory = is_directory_kind h.kind;
            mode = h.mode % 512;
            content = content;
            modified = h.modified;
          }
            ∷ [];
    })

  unfoldable pub admit_named :
      Progress Content → Header Content → Option FilePath → Outcome ArchiveError (Progress Content)
  admit_named p h none = ok p
  admit_named p h (some path) = admit_path p h path

  unfoldable pub admit : Progress Content → Header Content → Outcome ArchiveError (Progress Content)
  unfolding admit_named
  admit p h = do
    let counted : Progress Content = record p { count = p.count + 1 }
    fail_if (ltb max_files counted.count) file_count
    path ← check_name h
    admit_named counted h path

  -- The loop over an archive; none stands for a header that cannot be read.
  unfoldable pub admit_all :
      Progress Content → List (Option (Header Content)) → Outcome ArchiveError (Progress Content)
  admit_all p [] = ok p
  admit_all p (none ∷ rest) = err unreadable
  admit_all p (some h ∷ rest) = do next ← admit p h; admit_all next rest
