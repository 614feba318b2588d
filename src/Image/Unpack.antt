-- ===== src/Image/Unpack.antt =====
-- The extraction of an image's layers (cmd/worker/image.go, applyLayers): a tree of files, and what
-- each entry does to it.
pub mod Untouched
pub mod Frame
pub mod Modes
use edgelab.Shared.Text.{trim_prefix}
use edgelab.Shared.Outcome.{Outcome, err, ok}
use edgelab.Shared.Paths.{FilePath, base, dir, is_within, same_path}
use edgelab.Image.Archive.{Entry, is_whiteout}
use edgelab.Shared.{
  Bool, List, Option, String, [], false, if◌then◌else◌, none, not, some, str_eq, true, ℕ, ◌&&◌,
  ◌++◌, ◌||◌, ◌∷◌,
}
use edgelab.Shared.Action.{◌>>◌, Action, gets, lift, modify, pure, stop_if, ◌>>=◌, ◌>>◌}

-- A node with its mode and the time of its last change; a folder changes when an entry is made in it or
-- removed from it. A write that fails may leave a part of a file.
pub data Node (Content : Type 0) : Type 0 where
  folder : ℕ → ℕ → Node Content
  file : ℕ → ℕ → Content → Node Content
  part_file : ℕ → ℕ → Node Content

-- What is at each path below the root of the volume. No links: none are extracted.
abbrev pub Tree : Type 0 → Type 0
Tree Content = FilePath → Option (Node Content)

pub data FileError : Type 0 where
  io not_a_folder not_a_file no_such_file bad_whiteout crashed : FileError

-- The calls on a path that may fail.
pub data PathCall : Type 0 where
  read_dir remove_all mkdir lstat write chmod chtimes : PathCall

-- What a removal that fails leaves of a node below its path: nothing, the node at a later time, since
-- it has lost children, or the node as it was.
pub data Remnant : Type 0 where
  erased_node thinned_node kept_node : Remnant

-- What an extraction meets: the calls that fail, what a failing removal leaves of each node, the
-- folders that lose an entry when what is in them is removed (an empty one loses none), the files of
-- which a failing write leaves a part, the mode that the umask leaves, the clock, and whether the
-- process is made to exit after its first file.
pub record Kernel : Type 0 where
  pub fails : PathCall → FilePath → Bool
  pub remnant : FilePath → Remnant
  pub loses_entries : FilePath → Bool
  pub leaves_part : FilePath → Bool
  pub created_mode : ℕ → ℕ
  pub now : ℕ
  pub crash_partial : Bool

-- The target of a whiteout: a name beside it.
unfoldable pub target_of : FilePath → String
target_of p = trim_prefix (base p) ".wh."

unfoldable pub is_opaque : FilePath → Bool
is_opaque p = str_eq (base p) ".wh..wh..opq"

module _ {Content : Type 0} where
  unfoldable pub is_folder_node : Node Content → Bool
  is_folder_node (folder mode time) = true
  is_folder_node (file mode time content) = false
  is_folder_node (part_file mode time) = false

  unfoldable pub is_file_at : Option (Node Content) → Bool
  is_file_at none = false
  is_file_at (some node) = not (is_folder_node node)

  unfoldable pub mode_of : Node Content → ℕ
  mode_of (folder mode time) = mode
  mode_of (file mode time content) = mode
  mode_of (part_file mode time) = mode

  unfoldable pub time_of : Node Content → ℕ
  time_of (folder mode time) = time
  time_of (file mode time content) = time
  time_of (part_file mode time) = time

  unfoldable pub with_mode : ℕ → Node Content → Node Content
  with_mode mode (folder old time) = folder mode time
  with_mode mode (file old time content) = file mode time content
  with_mode mode (part_file old time) = part_file mode time

  unfoldable pub with_time : ℕ → Node Content → Node Content
  with_time time (folder mode old) = folder mode time
  with_time time (file mode old content) = file mode time content
  with_time time (part_file mode old) = part_file mode time

  unfoldable pub set_at : FilePath → Node Content → Tree Content → Tree Content
  set_at p node t q = if same_path p q then some node else t q

  unfoldable pub cut_at : FilePath → Tree Content → Tree Content
  cut_at p t q = if is_within p q then none else t q

  -- All below the path, which stays itself.
  unfoldable pub cut_below : FilePath → Tree Content → Tree Content
  cut_below p t q = if is_within p q && not (same_path p q) then none else t q

  unfoldable pub timed : ℕ → Option (Node Content) → Option (Node Content)
  timed now none = none
  timed now (some node) = some (with_time now node)

  -- The folder has changed now.
  unfoldable pub stamp : ℕ → FilePath → Tree Content → Tree Content
  unfolding timed
  stamp now p t q = if same_path p q then timed now (t q) else t q

  unfoldable pub remains : ℕ → Remnant → Option (Node Content) → Option (Node Content)
  remains now erased_node here = none
  remains now thinned_node here = timed now here
  remains now kept_node here = here

  -- A failed removal of what is below the path.
  unfoldable pub thin_below : Kernel → FilePath → Tree Content → Tree Content
  unfolding remains
  thin_below k p t q =
      if is_within p q && not (same_path p q) then remains k.now (k.remnant q) (t q) else t q

  unfoldable pub lose : Kernel → FilePath → Tree Content → Tree Content
  unfolding stamp
  lose k p t = if k.loses_entries p then stamp k.now p t else t

  -- A new entry changes its folder, a rewritten file does not.
  unfoldable pub stamp_new : ℕ → Option (Node Content) → FilePath → Tree Content → Tree Content
  stamp_new now none p t = stamp now p t
  stamp_new now (some node) p t = t

  -- A file lies on the way from the prefix to the last part but one.
  unfoldable pub is_blocked : FilePath → FilePath → Tree Content → Bool
  is_blocked prefix [] t = false
  is_blocked prefix (part ∷ []) t = false
  is_blocked prefix (part ∷ next ∷ rest) t =
      is_file_at (t (prefix ++ part ∷ [])) || is_blocked (prefix ++ part ∷ []) (next ∷ rest) t

  unfoldable pub written :
      Kernel → Content → Option (Node Content) → Outcome FileError (Node Content)
  written k content none = ok (file (k.created_mode 384) k.now content)
  written k content (some (file mode time old)) = ok (file mode k.now content)
  written k content (some (part_file mode time)) = ok (file mode k.now content)
  written k content (some (folder mode time)) = err not_a_file

module _ {Content : Type 0} (k : Kernel) where
  -- Part of what is below the path may be gone when a removal fails.
  unfoldable pub remove_part : FilePath → Action (Tree Content) FileError (Unit {0})
  unfolding thin_below lose
  remove_part p = do modify (λ t. lose k p (thin_below k p t)); lift (err io)

  unfoldable pub remove_node :
      FilePath → FilePath → Option (Node Content) → Action (Tree Content) FileError (Unit {0})
  unfolding stamp
  remove_node parent p none = pure tt
  remove_node parent p (some node) = modify (λ t. stamp k.now parent (cut_at p t))

  -- os.RemoveAll of a path in its parent: a path that is not there is no error.
  unfoldable pub remove_tree : FilePath → FilePath → Action (Tree Content) FileError (Unit {0})
  unfolding remove_part remove_node
  remove_tree parent p = do
    t ← gets (λ t. t)
    stop_if (is_blocked [] p t) not_a_folder
    if k.fails remove_all p then remove_part p else remove_node parent p (t p)

  unfoldable pub make_folder :
      FilePath → FilePath → Option (Node Content) → Action (Tree Content) FileError (Unit {0})
  unfolding stamp
  make_folder parent p (some (folder mode time)) = pure tt
  make_folder parent p (some (file mode time content)) = lift (err not_a_folder)
  make_folder parent p (some (part_file mode time)) = lift (err not_a_folder)
  make_folder parent p none = do
    stop_if (k.fails mkdir p) io
    modify (λ t. stamp k.now parent (set_at p (folder (k.created_mode 493) k.now) t))

  -- os.MkdirAll, from the prefix on, which is there.
  unfoldable pub make_folders : FilePath → FilePath → Action (Tree Content) FileError (Unit {0})
  unfolding make_folder
  make_folders prefix [] = pure tt
  make_folders prefix (part ∷ rest) =
      (gets (λ t. t (prefix ++ part ∷ [])) >>= make_folder prefix (prefix ++ part ∷ []))
      >> make_folders (prefix ++ part ∷ []) rest

  -- os.ReadDir of the parent, and os.RemoveAll of each child.
  unfoldable pub clear_folder : FilePath → Action (Tree Content) FileError (Unit {0})
  unfolding remove_part lose
  clear_folder p = do
    t ← gets (λ t. t)
    stop_if (is_file_at (t p) || is_blocked [] p t || k.fails read_dir p) not_a_folder
    if k.fails remove_all p then remove_part p else modify (λ t. lose k p (cut_below p t))

  unfoldable pub remove_target : FilePath → Action (Tree Content) FileError (Unit {0})
  unfolding remove_tree
  remove_target p = do
    stop_if (str_eq (target_of p) "" || str_eq (target_of p) "." || str_eq (target_of p) "..")
        bad_whiteout
    remove_tree (dir p) (dir p ++ target_of p ∷ [])

  unfoldable pub white_out : Entry Content → Action (Tree Content) FileError (Unit {0})
  unfolding clear_folder remove_target
  white_out e =
      if is_opaque e.path
      then clear_folder (dir e.path)
      else if is_whiteout e.path
      then remove_target e.path
      else pure tt

  unfoldable pub is_other_kind : Entry Content → Option (Node Content) → Bool
  is_other_kind e none = false
  is_other_kind e (some node) =
      not (k.fails lstat e.path)
      && (if is_folder_node node then not e.is_directory else e.is_directory)

  unfoldable pub clear_way : FilePath → Bool → Action (Tree Content) FileError (Unit {0})
  unfolding remove_tree
  clear_way p true = remove_tree (dir p) p
  clear_way p false = pure tt

  -- os.Lstat, and what is of the other kind goes.
  unfoldable pub make_way : Entry Content → Action (Tree Content) FileError (Unit {0})
  unfolding clear_way is_other_kind
  make_way e = do here ← gets (λ t. t e.path); clear_way e.path (is_other_kind e here)

  -- A write that fails before or after it has opened the file.
  unfoldable pub write_part :
      FilePath → Option (Node Content) → Node Content → Action (Tree Content) FileError (Unit {0})
  unfolding stamp_new mode_of
  write_part p here node = do
    modify (λ t.
        if k.leaves_part p
        then stamp_new k.now here (dir p) (set_at p (part_file (mode_of node) k.now) t)
        else t)
    lift (err io)

  unfoldable pub write_whole :
      FilePath → Option (Node Content) → Node Content → Action (Tree Content) FileError (Unit {0})
  unfolding stamp_new
  write_whole p here node = do
    modify (λ t. stamp_new k.now here (dir p) (set_at p node t))
    stop_if k.crash_partial crashed

  unfoldable pub write_file : FilePath → Content → Action (Tree Content) FileError (Unit {0})
  unfolding written write_part write_whole
  write_file p content = do
    here ← gets (λ t. t p)
    node ← lift (written k content here)
    if k.fails write p then write_part p here node else write_whole p here node

  unfoldable pub place : Entry Content → Action (Tree Content) FileError (Unit {0})
  unfolding make_folders write_file
  place e = if e.is_directory then make_folders [] e.path else write_file e.path e.content

  unfoldable pub extract : Entry Content → Action (Tree Content) FileError (Unit {0})
  unfolding make_folders make_way place
  extract e =
      if is_whiteout e.path
      then pure tt
      else make_folders [] (dir e.path) >> (make_way e >> place e)

  unfoldable pub change :
      FilePath
      → (Node Content → Node Content)
      → Option (Node Content)
      → Action (Tree Content) FileError (Unit {0})
  change p f none = lift (err no_such_file)
  change p f (some node) = modify (set_at p (f node))

  -- os.Chmod
  unfoldable pub set_mode : Entry Content → Action (Tree Content) FileError (Unit {0})
  unfolding change
  set_mode e = do
    stop_if (k.fails chmod e.path) io
    node ← gets (λ t. t e.path)
    change e.path (with_mode e.mode) node

  -- os.Chtimes
  unfoldable pub set_time : Entry Content → Action (Tree Content) FileError (Unit {0})
  unfolding change
  set_time e = do
    stop_if (k.fails chtimes e.path) io
    node ← gets (λ t. t e.path)
    change e.path (with_time e.modified) node

  unfoldable pub finish_entry : Entry Content → Action (Tree Content) FileError (Unit {0})
  unfolding set_mode set_time
  finish_entry e = if is_whiteout e.path then pure tt else set_mode e >> set_time e

  -- A loop over the entries, in their order or from the last to the first.
  unfoldable pub each :
      (Entry Content → Action (Tree Content) FileError (Unit {0}))
      → List (Entry Content)
      → Action (Tree Content) FileError (Unit {0})
  each f [] = pure tt
  each f (e ∷ rest) = f e >> each f rest

  unfoldable pub each_backwards :
      (Entry Content → Action (Tree Content) FileError (Unit {0}))
      → List (Entry Content)
      → Action (Tree Content) FileError (Unit {0})
  each_backwards f [] = pure tt
  each_backwards f (e ∷ rest) = each_backwards f rest >> f e

  unfoldable pub apply_layer : List (Entry Content) → Action (Tree Content) FileError (Unit {0})
  unfolding white_out extract finish_entry each each_backwards
  apply_layer entries = do
    each white_out entries
    each extract entries
    each_backwards finish_entry entries

  unfoldable pub apply_layers :
      List (List (Entry Content)) → Action (Tree Content) FileError (Unit {0})
  apply_layers [] = pure tt
  apply_layers (layer ∷ layers) = apply_layer layer >> apply_layers layers
