-- ===== src/Image/Archive/Safe.antt =====
-- Which entries of an archive are safe (cmd/worker/image.go, loadLayers).
use edgelab.Shared.Text.{all_codes, codes, trim_suffix}
use edgelab.Shared.Outcome.{ok}
use edgelab.Shared.Paths.{FilePath, HasNoRepeats, clean}
use edgelab.Image.Archive.{
  Entry, Header, Progress, check_name, escapes, has_parent_part, is_directory_kind, is_reserved,
  is_whiteout, max_expanded, max_files, read_content, Kind, directory, is_regular_kind, other_type,
  regular, paths_of,
}
use edgelab.Image.{Contents}
use edgelab.Shared.{
  Bool-cases, List, String, [], ap, arith, eq_iff, false, inl, inr, not, refl, some, str_eq, subst,
  true, ℕ, ◌++◌, ◌+◌, ◌<◌, ◌==◌, ◌||◌, ◌∷◌, ◌≡◌, ◌≢◌, ◌≤◌,
}
use edgelab.Shared.Split.{AllWithout, split, split-AllWithout}

-- A part of a path that names a file below its directory.
abbrev pub IsPlainPart : String → Type 0
IsPlainPart part =
    (part ≢ "")
    × (part ≢ ".")
    × (part ≢ "..")
    × (all_codes (λ c. not (c == b'/')) (codes part) ≡ true)

abbrev pub ArePlainParts : FilePath → Type 0
ArePlainParts [] = Unit
ArePlainParts (part ∷ rest) = IsPlainPart part × ArePlainParts rest

pub regular_is_no_directory : (k : Kind) → is_regular_kind k ≡ true → is_directory_kind k ≡ false
unfolding is_regular_kind is_directory_kind
regular_is_no_directory regular h = refl
regular_is_no_directory directory h = cc
regular_is_no_directory other_type h = cc

ArePlainParts-clean :
    (parts : List String)
    → has_parent_part parts ≡ false
    → AllWithout b'/' parts
    → ArePlainParts (clean parts)
unfolding clean has_parent_part
ArePlainParts-clean [] h w = tt
ArePlainParts-clean (part ∷ rest) h (w, ws) =
    elim (Bool-cases (str_eq part "" || str_eq part ".")) [
      | inl skipped ↦ rw skipped (ArePlainParts-clean rest (ground arith) ws)
      | inr kept ↦ rw kept (
        (
          λ e. ground (arith, eq_iff part ""),
          λ e. ground (arith, eq_iff part "."),
          λ e. ground (arith, eq_iff part ".."),
          w,
        ),
        ArePlainParts-clean rest (ground arith) ws,
      )
    ]

module _ {Content : Type 0} (contents : Contents Content) where
  -- A relative path that stays below the root and is not reserved, without special mode bits; a
  -- whiteout is an empty file.
  pub record IsSafe (e : Entry Content) : Type 0 where
    pub plain : ArePlainParts e.path
    pub free : is_reserved e.path ≡ false
    pub no_special_mode : e.mode < 512
    pub whiteout_is_empty :
        is_whiteout e.path ≡ true → (e.is_directory ≡ false) × (contents.size e.content ≡ 0)

  abbrev pub AreSafe : List (Entry Content) → Type 0
  AreSafe [] = Unit
  AreSafe (e ∷ rest) = IsSafe e × AreSafe rest

  abbrev pub total_size : List (Entry Content) → ℕ
  total_size [] = 0
  total_size (e ∷ rest) = contents.size e.content + total_size rest

  -- All that holds of the entries that have been taken so far, in a layer that starts with `before`
  -- bytes taken.
  pub record IsAdmitted (before : ℕ) (p : Progress Content) : Type 0 where
    pub safe : AreSafe p.entries
    pub seen : p.seen ≡ paths_of p.entries
    pub distinct : HasNoRepeats p.seen
    pub few : p.count ≤ max_files
    pub summed : p.total ≡ before + total_size p.entries
    pub bounded : p.total ≤ max_expanded

  pub AreSafe-append :
      (es : List (Entry Content)) (e : Entry Content)
      → AreSafe es
      → IsSafe e
      → AreSafe (es ++ e ∷ [])
  AreSafe-append [] e h s = (s, tt)
  AreSafe-append (first ∷ rest) e h s = (h.0, AreSafe-append rest e h.1 s)

  pub total_size-append :
      (es : List (Entry Content)) (e : Entry Content)
      → total_size (es ++ e ∷ []) ≡ total_size es + contents.size e.content
  total_size-append [] e = omega arith
  total_size-append (first ∷ rest) e = omega (arith, total_size-append rest e)

  pub paths_of-append :
      (es : List (Entry Content)) (e : Entry Content)
      → paths_of (es ++ e ∷ []) ≡ paths_of es ++ e.path ∷ []
  paths_of-append [] e = refl
  paths_of-append (first ∷ rest) e = ap (λ l. first.path ∷ l) (paths_of-append rest e)

  pub check_name_ok :
      (h : Header Content) (path : FilePath) → check_name h ≡ ok (some path) → ArePlainParts path
  unfolding check_name escapes
  check_name_ok h path e =
      let parts = split b'/' (trim_suffix h.name "/") in
      let same : clean parts ≡ path = ground arith in
      subst ArePlainParts same
        (ArePlainParts-clean parts (ground arith) (split-AllWithout b'/' (trim_suffix h.name "/")))

  pub read_content_ok :
      (h : Header Content) (content : Content)
      → read_content contents h ≡ ok content
      → contents.size content ≡ h.size
  unfolding read_content
  read_content_ok h content e = ground arith
