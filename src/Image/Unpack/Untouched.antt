-- ===== src/Image/Unpack/Untouched.antt =====
-- Steps of an extraction, and the paths that they leave alone (cmd/worker/image.go, applyLayers).

use mathlib.Core.List.{append_assoc}
use edgelab.Shared.Outcome.{Outcome-cases}
use edgelab.Shared.Paths.{
  FilePath, is_within, not_on_the_way, same_path, dir, is_within-same, not_above,
}
use edgelab.Image.Unpack.{
  FileError, Kernel, Node, Tree, change, clear_folder, clear_way, cut_at, cut_below, file, folder,
  is_other_kind, make_folder, make_folders, make_way, remove_tree, set_at, write_file, written,
  chmod, chtimes, with_mode, with_time, set_mode, set_time, is_blocked, is_file_at, lose,
  not_a_folder, read_dir, remove_all, remove_node, remove_part, stamp, stamp_new, thin_below,
  mode_of, part_file, write_part, write_whole,
}
use edgelab.Image.Archive.{Entry}
use edgelab.Shared.{
  Bool, Option, [], arith, false, if◌then◌else◌, inl, inr, none, not, refl, some, subst, sym, true,
  ◌&&◌, ◌++◌, ◌∙◌, ◌∷◌, ◌≡◌, Bool-cases, ℕ, ◌||◌,
}
use edgelab.Shared.Action.{◌>>=◌, ◌>>◌, Action, after_bind, gets, stop_if, modify}

module _ {Content : Type 0} (q : FilePath) where
  -- The step leaves what is at the path as it was.
  abbrev pub Leaves : {A : Type 0} → Action (Tree Content) FileError A → Type 0
  Leaves m = (t : Tree Content) → (m t).0 q ≡ t q

  pub Leaves-bind :
      {A B : Type 0} (m : Action (Tree Content) FileError A)
      (f : A → Action (Tree Content) FileError B)
      → Leaves m
      → ((a : A) → Leaves (f a))
      → Leaves (m >>= f)
  Leaves-bind m f first later t =
      after_bind (λ r. r.0 q ≡ t q) m f t (λ e h. first t) (λ a h. later a (m t).0 ∙ first t)

  pub Leaves-stop_then :
      {A : Type 0} (test : Bool) (e : FileError) (m : Action (Tree Content) FileError A)
      → Leaves m
      → Leaves (stop_if test e >> m)
  Leaves-stop_then true e m h t = refl
  Leaves-stop_then false e m h t = h t

  pub Leaves-branch :
      {A : Type 0} (b : Bool) (x y : Action (Tree Content) FileError A)
      → (b ≡ true → Leaves x)
      → (b ≡ false → Leaves y)
      → Leaves (if b then x else y)
  Leaves-branch true x y yes_case no_case = yes_case refl
  Leaves-branch false x y yes_case no_case = no_case refl

  Leaves-stamp_new :
      (now : ℕ) (here : Option (Node Content)) (parent p : FilePath) (node : Node Content)
      (t : Tree Content)
      → same_path p q ≡ false
      → same_path parent q ≡ false
      → stamp_new now here parent (set_at p node t) q ≡ t q
  unfolding stamp_new stamp set_at
  Leaves-stamp_new now none parent p node t h above = ground arith
  Leaves-stamp_new now (some old) parent p node t h above = ground arith

  module _ (k : Kernel) where
    Leaves-remove_part :
        (p : FilePath)
        → (is_within p q && not (same_path p q)) ≡ false
        → same_path p q ≡ false
        → Leaves (remove_part k p)
    unfolding remove_part lose thin_below stamp
    Leaves-remove_part p below other t = ground arith

    Leaves-remove_node :
        (parent p : FilePath) (o : Option (Node Content))
        → is_within p q ≡ false
        → same_path parent q ≡ false
        → Leaves (remove_node k parent p o)
    unfolding remove_node stamp cut_at
    Leaves-remove_node parent p none h above t = refl
    Leaves-remove_node parent p (some node) h above t = ground arith

    pub Leaves-remove_tree :
        (parent p : FilePath)
        → is_within p q ≡ false
        → same_path parent q ≡ false
        → Leaves (remove_tree k parent p)
    unfolding remove_tree
    Leaves-remove_tree parent p h above t =
        Leaves-stop_then (is_blocked [] p t) not_a_folder
          (if k.fails remove_all p then remove_part k p else remove_node k parent p (t p))
          (Leaves-branch (k.fails remove_all p) (remove_part k p) (remove_node k parent p (t p))
            (λ failed. Leaves-remove_part p (ground arith) (is_within-same p q h))
            (λ works. Leaves-remove_node parent p (t p) h above))
          t

    pub Leaves-clear_folder : (p : FilePath) → is_within p q ≡ false → Leaves (clear_folder k p)
    unfolding clear_folder cut_below lose stamp
    Leaves-clear_folder p h t =
        Leaves-stop_then (is_file_at (t p) || is_blocked [] p t || k.fails read_dir p) not_a_folder
          (if k.fails remove_all p
            then remove_part k p
            else modify (λ t'. lose k p (cut_below p t')))
          (Leaves-branch (k.fails remove_all p) (remove_part k p)
            (modify (λ t'. lose k p (cut_below p t')))
            (λ failed. Leaves-remove_part p (ground arith) (is_within-same p q h))
            (λ works t'. ground (arith, is_within-same p q h)))
          t

    pub Leaves-make_folder :
        (parent p : FilePath) (o : Option (Node Content))
        → same_path p q ≡ false
        → same_path parent q ≡ false
        → Leaves (make_folder k parent p o)
    unfolding make_folder set_at stamp
    Leaves-make_folder parent p none h above t = ground arith
    Leaves-make_folder parent p (some (folder mode time)) h above t = refl
    Leaves-make_folder parent p (some (file mode time content)) h above t = refl
    Leaves-make_folder parent p (some (part_file mode time)) h above t = refl

    pub Leaves-make_folders :
        (prefix rest : FilePath)
        → is_within q (prefix ++ rest) ≡ false
        → Leaves (make_folders k prefix rest)
    unfolding make_folders
    Leaves-make_folders prefix [] h = λ t. refl
    Leaves-make_folders prefix (part ∷ rest) h =
        let here = prefix ++ part ∷ [] in
        Leaves-bind (gets (λ t. t here) >>= make_folder k prefix here)
          (λ u. make_folders k here rest)
          (λ t.
            Leaves-make_folder prefix here (t here) (not_on_the_way prefix part rest q h)
              (not_above prefix (part ∷ rest) q h) t)
          (λ u.
            Leaves-make_folders here rest
              (subst (λ p. is_within q p ≡ false) (sym (append_assoc prefix (part ∷ []) rest)) h))

    pub Leaves-clear_way :
        (p : FilePath) (b : Bool)
        → is_within p q ≡ false
        → same_path (dir p) q ≡ false
        → Leaves (clear_way k p b)
    unfolding clear_way
    Leaves-clear_way p true h above t = Leaves-remove_tree (dir p) p h above t
    Leaves-clear_way p false h above t = refl

    pub Leaves-make_way :
        (e : Entry Content)
        → is_within e.path q ≡ false
        → same_path (dir e.path) q ≡ false
        → Leaves (make_way k e)
    unfolding make_way
    Leaves-make_way e h above t = Leaves-clear_way e.path (is_other_kind k e (t e.path)) h above t

    pub Leaves-write_file :
        (p : FilePath) (content : Content)
        → same_path p q ≡ false
        → same_path (dir p) q ≡ false
        → Leaves (write_file k p content)
    unfolding write_file write_part write_whole
    Leaves-write_file p content h above t = elim (Outcome-cases (written k content (t p))) [
      | inr (x, e) ↦ ground arith
      | inl (node, e) ↦
          let part : Node Content = part_file (mode_of node) k.now in
          ground (
            arith,
            Leaves-stamp_new k.now (t p) (dir p) p node t h above,
            Leaves-stamp_new k.now (t p) (dir p) p part t h above,
          )
    ]

    pub Leaves-change :
        (p : FilePath) (f : Node Content → Node Content) (o : Option (Node Content))
        → same_path p q ≡ false
        → Leaves (change k p f o)
    unfolding change set_at
    Leaves-change p f none h t = refl
    Leaves-change p f (some node) h t = ground arith

    pub Leaves-set_mode : (e : Entry Content) → same_path e.path q ≡ false → Leaves (set_mode k e)
    unfolding set_mode
    Leaves-set_mode e other t = elim (Bool-cases (k.fails chmod e.path)) [
      | inl failed ↦ ground arith
      | inr works ↦ ground (arith, Leaves-change e.path (with_mode e.mode) (t e.path) other t)
    ]

    pub Leaves-set_time : (e : Entry Content) → same_path e.path q ≡ false → Leaves (set_time k e)
    unfolding set_time
    Leaves-set_time e other t = elim (Bool-cases (k.fails chtimes e.path)) [
      | inl failed ↦ ground arith
      | inr works ↦ ground (arith, Leaves-change e.path (with_time e.modified) (t e.path) other t)
    ]
