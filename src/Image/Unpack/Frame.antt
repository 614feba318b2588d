-- ===== src/Image/Unpack/Frame.antt =====
-- What an extraction leaves alone (cmd/worker/image.go, applyLayers).
use edgelab.Shared.Paths.{
  FilePath, dir, is_within, same_path, base, is_within-same, is_within-dir, is_within-other,
}
use edgelab.Image.Unpack.{
  FileError, Kernel, Tree, clear_folder, extract, finish_entry, is_opaque, make_folders, make_way,
  remove_tree, target_of, white_out, write_file, apply_layer, apply_layers, bad_whiteout, each,
  each_backwards, place, remove_target, set_mode, set_time,
}
use edgelab.Image.Archive.{Entry, is_whiteout}
use edgelab.Shared.{
  Bool, List, [], arith, false, if◌then◌else◌, refl, subst, sym, true, ◌++◌, ◌||◌, ◌∷◌, ◌≡◌, eq_iff,
  starts_with, str_eq,
}
use edgelab.Shared.Action.{◌>>◌, Action, pure}
use edgelab.Image.Unpack.Untouched.{
  Leaves, Leaves-bind, Leaves-stop_then, Leaves-branch, Leaves-remove_tree, Leaves-clear_folder,
  Leaves-make_folders, Leaves-make_way, Leaves-write_file, Leaves-set_mode, Leaves-set_time,
}

-- An entry touches what it whites out and the folder that this lies in, or itself, the folders above it
-- and all below it.
abbrev pub touches : {Content : Type 0} → Entry Content → FilePath → Bool
touches e q =
    if is_opaque e.path
    then is_within (dir e.path) q
    else if is_whiteout e.path
    then is_within (dir e.path ++ target_of e.path ∷ []) q || same_path (dir e.path) q
    else is_within e.path q || is_within q e.path

abbrev pub touch_any : {Content : Type 0} → List (Entry Content) → FilePath → Bool
touch_any [] q = false
touch_any (e ∷ rest) q = touches e q || touch_any rest q

abbrev pub touch_layers : {Content : Type 0} → List (List (Entry Content)) → FilePath → Bool
touch_layers [] q = false
touch_layers (layer ∷ layers) q = touch_any layer q || touch_layers layers q

pub opaque_is_whiteout : (p : FilePath) → is_opaque p ≡ true → is_whiteout p ≡ true
unfolding is_opaque is_whiteout
opaque_is_whiteout p h =
    subst (λ s. starts_with s ".wh." ≡ true) (sym ((eq_iff (base p) ".wh..wh..opq").0 h)) refl

module _ {Content : Type 0} (q : FilePath) where
  module _ (k : Kernel) where
    Leaves-finish_entry : (e : Entry Content) → touches e q ≡ false → Leaves q (finish_entry k e)
    unfolding finish_entry
    Leaves-finish_entry e h =
        Leaves-branch q (is_whiteout e.path) (pure tt) (set_mode k e >> set_time k e) (λ w t. refl)
          (λ plain.
            let other = is_within-same e.path q (ground (arith, opaque_is_whiteout e.path)) in
            Leaves-bind q (set_mode k e) (λ u. set_time k e) (Leaves-set_mode q k e other)
              (λ u. Leaves-set_time q k e other))

    Leaves-remove_target :
        (p : FilePath)
        → is_within (dir p ++ target_of p ∷ []) q ≡ false
        → same_path (dir p) q ≡ false
        → Leaves {Content = Content} q (remove_target k p)
    unfolding remove_target
    Leaves-remove_target p h above =
        Leaves-stop_then q
          (str_eq (target_of p) "" || str_eq (target_of p) "." || str_eq (target_of p) "..")
          bad_whiteout (remove_tree k (dir p) (dir p ++ target_of p ∷ []))
          (Leaves-remove_tree q k (dir p) (dir p ++ target_of p ∷ []) h above)

    Leaves-white_out : (e : Entry Content) → touches e q ≡ false → Leaves q (white_out k e)
    unfolding white_out
    Leaves-white_out e h =
        let target : Action (Tree Content) FileError (Unit {0}) =
          if is_whiteout e.path then remove_target k e.path else pure tt in
        Leaves-branch q (is_opaque e.path) (clear_folder k (dir e.path)) target
          (λ opaque. Leaves-clear_folder q k (dir e.path) (ground arith))
          (λ plain.
            Leaves-branch q (is_whiteout e.path) (remove_target k e.path) (pure tt)
              (λ white. Leaves-remove_target e.path (ground arith) (ground arith))
              (λ other t. refl))

    Leaves-place :
        (e : Entry Content)
        → is_within e.path q ≡ false
        → is_within q e.path ≡ false
        → same_path (dir e.path) q ≡ false
        → Leaves q (place k e)
    unfolding place
    Leaves-place e below above not_parent =
        Leaves-branch q e.is_directory (make_folders k [] e.path) (write_file k e.path e.content)
          (λ d. Leaves-make_folders q k [] e.path above)
          (λ f. Leaves-write_file q k e.path e.content (is_within-same e.path q below) not_parent)

    Leaves-extract : (e : Entry Content) → touches e q ≡ false → Leaves q (extract k e)
    unfolding extract
    Leaves-extract e h =
        Leaves-branch q (is_whiteout e.path) (pure tt)
          (make_folders k [] (dir e.path) >> (make_way k e >> place k e)) (λ w t. refl)
          (λ plain.
            let below : is_within e.path q ≡ false = ground (arith, opaque_is_whiteout e.path) in
            let above : is_within q e.path ≡ false = ground (arith, opaque_is_whiteout e.path) in
            let above_dir : is_within q (dir e.path) ≡ false =
              ground (arith, is_within-dir q e.path) in
            let not_parent : same_path (dir e.path) q ≡ false =
              is_within-other (dir e.path) q above_dir in
            Leaves-bind q (make_folders k [] (dir e.path)) (λ u. make_way k e >> place k e)
              (Leaves-make_folders q k [] (dir e.path) above_dir)
              (λ u.
                Leaves-bind q (make_way k e) (λ u'. place k e)
                  (Leaves-make_way q k e below not_parent)
                  (λ u'. Leaves-place e below above not_parent)))

    Leaves-each :
        (f : Entry Content → Action (Tree Content) FileError (Unit {0}))
        → ((e : Entry Content) → touches e q ≡ false → Leaves q (f e))
        → (es : List (Entry Content)) → touch_any es q ≡ false
        → Leaves q (each k f es)
    unfolding each
    Leaves-each f step [] h t = refl
    Leaves-each f step (e ∷ rest) h t =
        Leaves-bind q (f e) (λ u. each k f rest) (step e (ground arith))
          (λ u. Leaves-each f step rest (ground arith)) t

    Leaves-each_backwards :
        (f : Entry Content → Action (Tree Content) FileError (Unit {0}))
        → ((e : Entry Content) → touches e q ≡ false → Leaves q (f e))
        → (es : List (Entry Content)) → touch_any es q ≡ false
        → Leaves q (each_backwards k f es)
    unfolding each_backwards
    Leaves-each_backwards f step [] h t = refl
    Leaves-each_backwards f step (e ∷ rest) h t =
        Leaves-bind q (each_backwards k f rest) (λ u. f e)
          (Leaves-each_backwards f step rest (ground arith)) (λ u. step e (ground arith)) t

    pub Leaves-apply_layer :
        (es : List (Entry Content)) → touch_any es q ≡ false → Leaves q (apply_layer k es)
    unfolding apply_layer
    Leaves-apply_layer es h =
        Leaves-bind q (each k (white_out k) es)
          (λ u. each k (extract k) es >> each_backwards k (finish_entry k) es)
          (Leaves-each (white_out k) Leaves-white_out es h)
          (λ u.
            Leaves-bind q (each k (extract k) es) (λ u'. each_backwards k (finish_entry k) es)
              (Leaves-each (extract k) Leaves-extract es h)
              (λ u'. Leaves-each_backwards (finish_entry k) Leaves-finish_entry es h))

-- An extraction, be it complete or interrupted or failed, leaves every path as it was that no entry
-- touches: a path that no whiteout removes, and in which it removes nothing, and that is neither an
-- entry, nor below one, nor a folder above one.
pub apply_layers-Leaves :
    {Content : Type 0} (q : FilePath) (k : Kernel) (layers : List (List (Entry Content)))
    (t : Tree Content)
    → touch_layers layers q ≡ false
    → (apply_layers k layers t).0 q ≡ t q
unfolding apply_layers
apply_layers-Leaves q k [] t h = refl
apply_layers-Leaves q k (layer ∷ layers) t h =
    Leaves-bind q (apply_layer k layer) (λ u. apply_layers k layers)
      (Leaves-apply_layer q k layer (ground arith))
      (λ u t'. apply_layers-Leaves q k layers t' (ground arith)) t
