-- ===== src/Image/Archive/Admitted.antt =====
-- What the admission of an archive's entries promises (cmd/worker/image.go, loadLayers).
use edgelab.Grow.Step.{named}
use mathlib.Core.Path.{ap₂}
use edgelab.Shared.Outcome.{Outcome-cases, ok}
use edgelab.Shared.Paths.{FilePath, has_path, HasNoRepeats-append}
use edgelab.Image.Archive.{
  Entry, Header, Progress, admit_path, check_name, is_directory_kind, is_reserved, is_whiteout,
  max_expanded, max_files, read_content, is_regular_empty, admit, admit_all, admit_named, paths_of,
}
use edgelab.Image.{Contents}
use edgelab.Shared.{
  Bool-cases, List, [], arith, false, inl, inr, refl, some, subst, true, ℕ, ◌%◌, ◌++◌, ◌+◌, ◌∷◌,
  ◌≡◌, ◌≤◌, Option, ltb, none, sym, ◌∙◌,
}
use edgelab.Image.Archive.Safe.{
  regular_is_no_directory, AreSafe-append, total_size-append, paths_of-append, check_name_ok,
  read_content_ok, IsSafe, IsAdmitted, ArePlainParts,
}

module _ {Content : Type 0} (contents : Contents Content) where
  -- What an admitted entry is, and how the progress has gone on.
  admit_path_ok :
      (p next : Progress Content) (h : Header Content) (path : FilePath)
      → admit_path contents p h path ≡ ok next
      → (e : Entry Content) × (e.path ≡ path)
        × (is_reserved path ≡ false)
        × (has_path path p.seen ≡ false)
        × (e.mode ≡ h.mode % 512)
        × (is_whiteout path ≡ true → (e.is_directory ≡ false) × (contents.size e.content ≡ 0))
        × (p.total + contents.size e.content ≤ max_expanded)
        × (next ≡ record {
          count = p.count;
          total = p.total + contents.size e.content;
          seen = p.seen ++ path ∷ [];
          entries = p.entries ++ e ∷ [];
        })
  unfolding admit_path is_regular_empty
  admit_path_ok p next h path e = elim (Outcome-cases (read_content contents h)) [
    | inr (x, bad) ↦ absurd (ground arith)
    | inl (content, good) ↦
        let size = read_content_ok contents h content good in
        (
          record {
            path = path;
            is_directory = is_directory_kind h.kind;
            mode = h.mode % 512;
            content = content;
            modified = h.modified;
          },
          refl,
          ground arith,
          ground arith,
          refl,
          λ w. ground (arith, regular_is_no_directory h.kind),
          ground arith,
          ground arith,
        )
  ]

  IsAdmitted-admit_path :
      (before : ℕ) (p next : Progress Content) (h : Header Content) (path : FilePath)
      → IsAdmitted contents before p
      → ArePlainParts path
      → admit_path contents p h path ≡ ok next
      → IsAdmitted contents before next
  IsAdmitted-admit_path before p next h path sound plain done =
      let (e, at, free, new, mode, white, fits, same) = admit_path_ok p next h path done in
      let seen : p.seen ++ path ∷ [] ≡ paths_of (p.entries ++ e ∷ []) =
        ap₂ (λ a b. a ++ b ∷ []) sound.seen (sym at) ∙ sym (paths_of-append contents p.entries e) in
      let is_safe : IsSafe contents e = record {
        plain = subst ArePlainParts (sym at) plain;
        free = subst (λ q. is_reserved q ≡ false) (sym at) free;
        no_special_mode = omega (arith, mode);
        whiteout_is_empty = λ w. white (subst (λ q. is_whiteout q ≡ true) at w);
      } in
      subst (IsAdmitted contents before) (sym same) (record {
        safe = AreSafe-append contents p.entries e sound.safe is_safe;
        seen = seen;
        distinct = HasNoRepeats-append p.seen path sound.distinct new;
        few = sound.few;
        summed = omega (arith, sound.summed, total_size-append contents p.entries e);
        bounded = fits;
      })

  IsAdmitted-admit :
      (before : ℕ) (p next : Progress Content) (h : Header Content)
      → IsAdmitted contents before p
      → admit contents p h ≡ ok next
      → IsAdmitted contents before next
  unfolding admit admit_named
  IsAdmitted-admit before p next h sound done = elim (Bool-cases (ltb max_files (p.count + 1))) [
    | inl many ↦ absurd (ground arith)
    | inr few ↦
        let counted : IsAdmitted contents before (record p { count = p.count + 1 }) = record {
          safe = sound.safe;
          seen = sound.seen;
          distinct = sound.distinct;
          few = ground arith;
          summed = sound.summed;
          bounded = sound.bounded;
        } in
        elim (Outcome-cases (check_name h)) [
          | inr (x, bad) ↦ absurd (ground arith)
          | inl (none, root) ↦
              let same : record p { count = p.count + 1 } ≡ next = ground arith in
              subst (IsAdmitted contents before) same counted
          | inl (some path, named) ↦
              IsAdmitted-admit_path before (record p { count = p.count + 1 }) next h path counted
                (check_name_ok contents h path named) (ground arith)
        ]
  ]

  -- Whatever an archive holds, the entries taken from it stay below the root and off the reserved
  -- names, are named once each and have no special mode bits, a whiteout among them is an empty file,
  -- and their contents and count are within the limits, with those of the layers before.
  pub admit_all-IsAdmitted :
      (before : ℕ) (p next : Progress Content) (archive : List (Option (Header Content)))
      → IsAdmitted contents before p
      → admit_all contents p archive ≡ ok next
      → IsAdmitted contents before next
  unfolding admit_all
  admit_all-IsAdmitted before p next [] sound done =
      subst (IsAdmitted contents before) (ground arith) sound
  admit_all-IsAdmitted before p next (none ∷ rest) sound done = cc
  admit_all-IsAdmitted before p next (some h ∷ rest) sound done =
      elim (Outcome-cases (admit contents p h)) [
        | inr (x, bad) ↦ absurd (ground arith)
        | inl (after, good) ↦
            admit_all-IsAdmitted before after next rest
              (IsAdmitted-admit before p after h sound good) (ground arith)
      ]
