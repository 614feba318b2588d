-- ===== src/Image/Unpack/Modes.antt =====
-- What a complete extraction of a layer leaves at each entry (cmd/worker/image.go, applyLayers).

use edgelab.Shared.Outcome.{ok}
use edgelab.Shared.{
  List, [], arith, false, refl, some, ◌∙◌, ◌∷◌, ◌≡◌, Bool-cases, Option-cases, ap, inl, inr, sym, ℕ,
}
use edgelab.Image.Unpack.Untouched.{
  Leaves, Leaves-bind, Leaves-branch, Leaves-set_mode, Leaves-set_time,
}
use edgelab.Image.Unpack.{
  Kernel, Node, Tree, apply_layer, change, each_backwards, finish_entry, mode_of, set_at, set_mode,
  set_time, time_of, with_mode, with_time, chmod, chtimes, each, extract, file, folder, white_out,
  part_file,
}
use edgelab.Shared.Paths.{FilePath, HasNoRepeats, has_path, same_path, same_path-sym, same_path_iff}
use edgelab.Image.Archive.{Entry, is_whiteout, paths_of}
use edgelab.Shared.Action.{◌>>◌, pure, after_bind}

module _ {Content : Type 0} where
  mode_of-with_mode : (m : ℕ) (node : Node Content) → mode_of (with_mode m node) ≡ m
  unfolding mode_of with_mode
  mode_of-with_mode m (folder mode time) = refl
  mode_of-with_mode m (file mode time content) = refl
  mode_of-with_mode m (part_file mode time) = refl

  mode_of-with_time : (m : ℕ) (node : Node Content) → mode_of (with_time m node) ≡ mode_of node
  unfolding mode_of with_time
  mode_of-with_time m (folder mode time) = refl
  mode_of-with_time m (file mode time content) = refl
  mode_of-with_time m (part_file mode time) = refl

  time_of-with_time : (m : ℕ) (node : Node Content) → time_of (with_time m node) ≡ m
  unfolding time_of with_time
  time_of-with_time m (folder mode time) = refl
  time_of-with_time m (file mode time content) = refl
  time_of-with_time m (part_file mode time) = refl

  -- The entry is there, with its mode and its time.
  abbrev pub IsFinished : Tree Content → Entry Content → Type 0
  IsFinished t e =
      is_whiteout e.path ≡ false
      → (node : Node Content) × (t e.path ≡ some node)
        × (mode_of node ≡ e.mode)
        × (time_of node ≡ e.modified)

  abbrev pub AreFinished : Tree Content → List (Entry Content) → Type 0
  AreFinished t [] = Unit
  AreFinished t (e ∷ rest) = IsFinished t e × AreFinished t rest

  AreFinished-kept :
      (t t' : Tree Content) (p : FilePath) (es : List (Entry Content))
      → ((q : FilePath) → same_path p q ≡ false → t' q ≡ t q)
      → has_path p (paths_of es) ≡ false
      → AreFinished t es
      → AreFinished t' es
  unfolding has_path
  AreFinished-kept t t' p [] kept new h = tt
  AreFinished-kept t t' p (e ∷ rest) kept new (first, others) = (
    λ plain.
        let (node, there, mode, time) = first plain in
        (node, kept e.path (ground (arith, same_path-sym p e.path)) ∙ there, mode, time),
    AreFinished-kept t t' p rest kept (ground arith) others,
  )

  module _ (k : Kernel) where
    finish_entry-Leaves :
        (e : Entry Content) (q : FilePath)
        → same_path e.path q ≡ false
        → Leaves q (finish_entry k e)
    unfolding finish_entry
    finish_entry-Leaves e q other =
        Leaves-branch q (is_whiteout e.path) (pure tt) (set_mode k e >> set_time k e) (λ w t. refl)
          (λ plain.
            Leaves-bind q (set_mode k e) (λ u. set_time k e) (Leaves-set_mode q k e other)
              (λ u. Leaves-set_time q k e other))

    set_mode_ok :
        (e : Entry Content) (t : Tree Content)
        → (set_mode k e t).1 ≡ ok tt
        → (node : Node Content) × ((set_mode k e t).0 e.path ≡ some node) × (mode_of node ≡ e.mode)
    unfolding set_mode change set_at
    set_mode_ok e t h = elim (Bool-cases (k.fails chmod e.path)) [
      | inl failed ↦ absurd (ground arith)
      | inr works ↦ elim (Option-cases (t e.path)) [
        | inl e' ↦ absurd (ground arith)
        | inr (node, e') ↦ (
          with_mode e.mode node,
          ground (arith, same_path_iff e.path e.path),
          mode_of-with_mode e.mode node,
        )
      ]
    ]

    set_time_ok :
        (e : Entry Content) (t : Tree Content) (before : Node Content)
        → t e.path ≡ some before
        → (set_time k e t).1 ≡ ok tt
        → (node : Node Content) × ((set_time k e t).0 e.path ≡ some node)
          × (mode_of node ≡ mode_of before)
          × (time_of node ≡ e.modified)
    unfolding set_time change set_at
    set_time_ok e t before there h = elim (Bool-cases (k.fails chtimes e.path)) [
      | inl failed ↦ absurd (ground arith)
      | inr works ↦ (
        with_time e.modified before,
        ground (arith, same_path_iff e.path e.path),
        mode_of-with_time e.modified before,
        time_of-with_time e.modified before,
      )
    ]

    finish_entry-IsFinished :
        (e : Entry Content) (t : Tree Content)
        → (finish_entry k e t).1 ≡ ok tt
        → IsFinished (finish_entry k e t).0 e
    unfolding finish_entry
    finish_entry-IsFinished e t done plain =
        let same : finish_entry k e ≡ (set_mode k e >> set_time k e) = rw plain refl in
        let done' : ((set_mode k e >> set_time k e) t).1 ≡ ok tt =
          sym (ap (λ m. (m t).1) same) ∙ done in
        let finished =
          after_bind
            (λ r.
              r.1 ≡ ok tt
              → (node : Node Content) × (r.0 e.path ≡ some node)
                × (mode_of node ≡ e.mode)
                × (time_of node ≡ e.modified))
            (set_mode k e) (λ u. set_time k e) t (λ x h bad. absurd (cc))
            (λ u moded timed.
              let (node, there, mode) = set_mode_ok e t moded in
              let (node', there', mode', time) =
                set_time_ok e (set_mode k e t).0 node there timed in
              (node', there', mode' ∙ mode, time))
            done' in
        let (node, there, mode, time) = finished in
        (node, ap (λ m. (m t).0 e.path) same ∙ there, mode, time)

    each_backwards-AreFinished :
        (es : List (Entry Content)) (t : Tree Content)
        → HasNoRepeats (paths_of es)
        → (each_backwards k (finish_entry k) es t).1 ≡ ok tt
        → AreFinished (each_backwards k (finish_entry k) es t).0 es
    unfolding each_backwards
    each_backwards-AreFinished [] t h done = tt
    each_backwards-AreFinished (e ∷ rest) t (new, distinct) done =
        after_bind (λ r. r.1 ≡ ok tt → AreFinished r.0 (e ∷ rest))
          (each_backwards k (finish_entry k) rest) (λ u. finish_entry k e) t
          (λ x h bad. absurd (cc))
          (λ u before last.
            let t' = (each_backwards k (finish_entry k) rest t).0 in
            (
              finish_entry-IsFinished e t' last,
              AreFinished-kept t' (finish_entry k e t').0 e.path rest
                  (λ q other. (finish_entry-Leaves e q other) t') new
                  (each_backwards-AreFinished rest t distinct before),
            ))
          done

  -- When the extraction of a layer succeeds, whose entries are named once each, then every entry that
  -- is no whiteout is there, with its mode and its time.
  pub apply_layer-AreFinished :
      (k : Kernel) (es : List (Entry Content)) (t : Tree Content)
      → HasNoRepeats (paths_of es)
      → (apply_layer k es t).1 ≡ ok tt
      → AreFinished (apply_layer k es t).0 es
  unfolding apply_layer
  apply_layer-AreFinished k es t distinct =
      after_bind (λ r. r.1 ≡ ok tt → AreFinished r.0 es) (each k (white_out k) es)
        (λ u. each k (extract k) es >> each_backwards k (finish_entry k) es) t
        (λ x h bad. absurd (cc))
        (λ u h.
          after_bind (λ r. r.1 ≡ ok tt → AreFinished r.0 es) (each k (extract k) es)
            (λ u'. each_backwards k (finish_entry k) es) (each k (white_out k) es t).0
            (λ x h' bad. absurd (cc))
            (λ u' h'.
              each_backwards-AreFinished k es
                (each k (extract k) es (each k (white_out k) es t).0).0 distinct))
