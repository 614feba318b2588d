-- ===== src/Image/Archive/Taken.antt =====
-- Which entries are taken from an archive (cmd/worker/image.go, loadLayers).
use mathlib.Core.List.{append-nil}
use edgelab.Shared.{
  Bool-cases, List, Option, Option-cases, [], ap, arith, eq_iff, inl, inr, none, refl, some, str_eq,
  true, ◌%◌, ◌++◌, ◌+◌, ◌∙◌, ◌∷◌, ◌≡◌, ◌⊎◌,
}
use edgelab.Image.Archive.{
  Entry, Header, Progress, admit, admit_all, admit_named, admit_path, check_name, is_directory_kind,
  read_content,
}
use edgelab.Image.{Contents}
use edgelab.Shared.Outcome.{Outcome-cases, ok}
use edgelab.Shared.Paths.{clean, FilePath}
use edgelab.Shared.Split.{split}
use edgelab.Shared.Text.{trim_suffix}
use mathlib.Core.List.{append_assoc}

-- The header's name, cleaned, its kind, its permissions, its content and its time.
pub record IsOf {Content : Type 0} (h : Header Content) (e : Entry Content) : Type 0 where
  pub named : e.path ≡ clean (split b'/' (trim_suffix h.name "/"))
  pub kind : e.is_directory ≡ is_directory_kind h.kind
  pub mode : e.mode ≡ h.mode % 512
  pub content : h.content ≡ some e.content
  pub modified : e.modified ≡ h.modified

-- The root directory.
abbrev pub IsRoot : {Content : Type 0} → Header Content → Type 0
IsRoot h =
    (is_directory_kind h.kind ≡ true)
    × ((trim_suffix h.name "/" ≡ ".") ⊎ (trim_suffix h.name "/" ≡ ""))

-- Every header could be read, and each gives its entry, in their order, but for the root directory.
pub data AreTaken {Content : Type 0}
    : List (Option (Header Content)) → List (Entry Content) → Type 0 where
  all_read : AreTaken [] []
  passed_over :
      {h : Header Content} {rest : List (Option (Header Content))} {es : List (Entry Content)}
      → IsRoot h
      → AreTaken rest es
      → AreTaken (some h ∷ rest) es
  taken :
      {h : Header Content} {rest : List (Option (Header Content))} {e : Entry Content}
      {es : List (Entry Content)}
      → IsOf h e
      → AreTaken rest es
      → AreTaken (some h ∷ rest) (e ∷ es)

module _ {Content : Type 0} (contents : Contents Content) where
  admit_path-IsOf :
      (p next : Progress Content) (h : Header Content) (path : FilePath)
      → path ≡ clean (split b'/' (trim_suffix h.name "/"))
      → admit_path contents p h path ≡ ok next
      → (e : Entry Content) × IsOf h e × (next.entries ≡ p.entries ++ e ∷ [])
  unfolding admit_path read_content
  admit_path-IsOf p next h path same done = elim (Option-cases h.content) [
    | inl bad ↦ absurd (ground arith)
    | inr (content, there) ↦ (
      record {
        path = path;
        is_directory = is_directory_kind h.kind;
        mode = h.mode % 512;
        content = content;
        modified = h.modified;
      },
      record { named = same; kind = refl; mode = refl; content = there; modified = refl },
      ground arith,
    )
  ]

  check_name-path :
      (h : Header Content) (path : FilePath)
      → check_name h ≡ ok (some path)
      → path ≡ clean (split b'/' (trim_suffix h.name "/"))
  unfolding check_name
  check_name-path h path e = ground arith

  check_name-IsRoot : (h : Header Content) → check_name h ≡ ok none → IsRoot h
  unfolding check_name
  check_name-IsRoot h e = (
    ground arith,
    elim (Bool-cases (str_eq (trim_suffix h.name "/") ".")) [
      | inl dot ↦ inl ((eq_iff (trim_suffix h.name "/") ".").0 dot)
      | inr other ↦ inr (ground (arith, eq_iff (trim_suffix h.name "/") ""))
    ],
  )

  -- What is taken from a whole archive.
  pub admit_all-AreTaken :
      (p next : Progress Content) (archive : List (Option (Header Content)))
      → admit_all contents p archive ≡ ok next
      → (es : List (Entry Content)) × AreTaken archive es × (next.entries ≡ p.entries ++ es)
  unfolding admit_all admit admit_named
  admit_all-AreTaken p next [] done = ([], all_read, ground (arith, append-nil p.entries))
  admit_all-AreTaken p next (none ∷ rest) done = cc
  admit_all-AreTaken p next (some h ∷ rest) done = elim (Outcome-cases (admit contents p h)) [
    | inr (x, bad) ↦ absurd (ground arith)
    | inl (after, good) ↦
        let (es, later, e) = admit_all-AreTaken after next rest (ground arith) in
        elim (Outcome-cases (check_name h)) [
          | inr (x, bad) ↦ absurd (ground arith)
          | inl (none, root) ↦
              let same : after.entries ≡ p.entries = ground arith in
              (es, passed_over (check_name-IsRoot h root) later, e ∙ ap (λ l. l ++ es) same)
          | inl (some path, named_path) ↦
              let (entry, is_of, same) =
                admit_path-IsOf (record p { count = p.count + 1 }) after h path
                  (check_name-path h path named_path) (ground arith) in
              (
                entry ∷ es,
                taken is_of later,
                e ∙ ap (λ l. l ++ es) same ∙ append_assoc p.entries (entry ∷ []) es,
              )
        ]
  ]
