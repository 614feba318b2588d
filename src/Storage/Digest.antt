-- ===== src/Storage/Digest.antt =====
-- The digest of an image's files (cmd/worker/storage.go, treeDigest): a walk over the mounted volume.
use edgelab.Shared.Table.{Table, insert}
use edgelab.Shared.Outcome.{Outcome, err, ok}
use edgelab.Shared.{
  Bool, Option, String, [], false, if◌then◌else◌, none, some, str_append, str_eq, true, ℕ,
}

-- What filepath.WalkDir comes to, with the permissions as far as they can be read: a folder, which may
-- be unreadable, with its entries in their order; a regular file, as far as it can be read; or another
-- kind of entry.
mutual
  pub data Found (Content : Type 0) : Type 0 where
    directory : Option ℕ → Bool → Listing Content → Found Content
    regular : Option ℕ → Option Content → Found Content
    special : Option ℕ → Found Content

  pub data Listing (Content : Type 0) : Type 0 where
    nil : Listing Content
    cons : String → Found Content → Listing Content → Listing Content

-- fmt's octal numbers, SHA-256 in hexadecimal, and the JSON of a map, whose keys it sorts.
pub record Printing (Content : Type 0) : Type 0 where
  pub octal : ℕ → String
  pub digest : Content → String
  pub marshal : Table String → Option Content

pub data WalkError : Type 0 where
  unreadable_folder unreadable_file no_info unexpected_entry unencodable : WalkError

-- The path of an entry from the root, which is no prefix of its own.
unfoldable pub entry_path : String → String → String
entry_path at name = if str_eq at "" then name else str_append at (str_append "/" name)

module _ {Content : Type 0} (print : Printing Content) where
  -- The callback on a folder; none is filepath.SkipDir.
  unfoldable pub visit_folder :
      String → Option ℕ → Table String → Outcome WalkError (Option (Table String))
  visit_folder key perm m =
      if str_eq key "lost+found"
      then ok none
      else if str_eq key ".edgelab-image.json"
      then ok (some m)
      else elim perm [
        | none ↦ err no_info
        | some mode ↦ ok (some (insert key (str_append "directory:" (print.octal mode)) m))
      ]

  unfoldable pub read_regular :
      String → Option ℕ → Option Content → Table String → Outcome WalkError (Option (Table String))
  read_regular key none content m = err no_info
  read_regular key (some mode) none m = err unreadable_file
  read_regular key (some mode) (some c) m =
      ok (some (insert key (str_append (print.octal mode) (str_append ":" (print.digest c))) m))

  -- The callback on a regular file.
  unfoldable pub visit_file :
      String → Option ℕ → Option Content → Table String → Outcome WalkError (Option (Table String))
  unfolding read_regular
  visit_file key perm content m =
      if str_eq key "lost+found"
      then ok none
      else if str_eq key ".edgelab-image.json"
      then ok (some m)
      else read_regular key perm content m

  -- The callback on another entry.
  unfoldable pub visit_special :
      String → Option ℕ → Table String → Outcome WalkError (Option (Table String))
  visit_special key perm m =
      if str_eq key "lost+found"
      then ok none
      else if str_eq key ".edgelab-image.json"
      then ok (some m)
      else elim perm [ none ↦ err no_info | some mode ↦ err unexpected_entry ]

  -- After the callback on what is no folder: SkipDir skips the rest of its folder too.
  unfoldable pub after_visit :
      Table String
      → Outcome WalkError (Option (Table String))
      → Outcome WalkError (Bool × Table String)
  after_visit m (err e) = err e
  after_visit m (ok none) = ok (true, m)
  after_visit m (ok (some m')) = ok (false, m')

  -- After the entries of a folder, the walk goes on behind it.
  unfoldable pub leave : Outcome WalkError (Table String) → Outcome WalkError (Bool × Table String)
  leave (err e) = err e
  leave (ok m) = ok (false, m)

  -- After the callback on a folder, its entries are read; SkipDir skips them.
  unfoldable pub enter :
      Table String
      → Bool
      → (Table String → Outcome WalkError (Table String))
      → Outcome WalkError (Option (Table String))
      → Outcome WalkError (Bool × Table String)
  unfolding leave
  enter m is_readable inside (err e) = err e
  enter m is_readable inside (ok none) = ok (false, m)
  enter m false inside (ok (some m')) = err unreadable_folder
  enter m true inside (ok (some m')) = leave (inside m')

  -- After an entry, the rest of its folder.
  unfoldable pub next_entry :
      (Table String → Outcome WalkError (Table String))
      → Outcome WalkError (Bool × Table String)
      → Outcome WalkError (Table String)
  next_entry rest (err e) = err e
  next_entry rest (ok (true, m)) = ok m
  next_entry rest (ok (false, m)) = rest m

  -- filepath.WalkDir from an entry, and over the entries of a folder: whether the rest of the folder is
  -- skipped, and the records.
  unfoldable mutual
    pub walk : String → Found Content → Table String → Outcome WalkError (Bool × Table String)
    walk key (regular perm content) m = after_visit m (visit_file key perm content m)
    walk key (special perm) m = after_visit m (visit_special key perm m)
    walk key (directory perm is_readable children) m =
        enter m is_readable (λ m'. walk_all key children m') (visit_folder key perm m)

    pub walk_all : String → Listing Content → Table String → Outcome WalkError (Table String)
    walk_all at nil m = ok m
    walk_all at (cons name e rest) m =
        next_entry (λ m'. walk_all at rest m') (walk (entry_path at name) e m)

  -- The records of the root's entries; the root has none itself.
  unfoldable pub records_of : Option (Found Content) → Outcome WalkError (Table String)
  records_of none = err unreadable_folder
  records_of (some (regular perm content)) = ok []
  records_of (some (special perm)) = ok []
  records_of (some (directory perm false children)) = err unreadable_folder
  records_of (some (directory perm true children)) = walk_all "" children []

  unfoldable pub digest_records : Outcome WalkError (Table String) → Outcome WalkError String
  digest_records (err e) = err e
  digest_records (ok records) = elim (print.marshal records) [
    | none ↦ err unencodable
    | some json ↦ ok (print.digest json)
  ]

  unfoldable pub tree_digest : Option (Found Content) → Outcome WalkError String
  unfolding records_of
  tree_digest root = digest_records (records_of root)
