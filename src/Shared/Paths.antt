-- ===== src/Shared/Paths.antt =====
-- Relative paths, taken apart at their slashes: path.Clean, path.Base and path.Dir on those.
use Prim.Native.String.{String}
use mathlib.Core.Path.{subst, ◌≡◌, ◌∙◌, refl}
use mathlib.Core.Logic.{inl, inr, ◌↔◌}
use mathlib.Core.Bool.{Bool, true, false, ◌&&◌, ◌||◌}
use mathlib.Core.List.{List, [], append_assoc, ◌∷◌, ◌++◌}
use native.Mathlib.Omega.{arith}
use text.Mathlib.Text.{◌==◌ as str_eq}
use text.Mathlib.TextEquality.{eq_iff}
use text.Mathlib.TextPositions.{eq_refl}
use edgelab.Shared.Tests.{Bool-cases, if◌then◌else◌}

abbrev pub FilePath : Type 0
FilePath = List String

unfoldable pub same_path : FilePath → FilePath → Bool
same_path [] [] = true
same_path [] (b ∷ q) = false
same_path (a ∷ p) [] = false
same_path (a ∷ p) (b ∷ q) = str_eq a b && same_path p q

pub same_path_iff : (p q : FilePath) → (same_path p q ≡ true) ↔ (p ≡ q)
unfolding same_path
same_path_iff [] [] = (λ h. refl, λ h. refl)
same_path_iff [] (b ∷ q) = (λ h. cc, λ h. cc)
same_path_iff (a ∷ p) [] = (λ h. cc, λ h. cc)
same_path_iff (a ∷ p) (b ∷ q) = (
  λ h. ground (arith, eq_iff a b, same_path_iff p q),
  λ h. ground (arith, eq_iff a b, same_path_iff p q),
)

pub same_path-sym : (p q : FilePath) → same_path p q ≡ same_path q p
unfolding same_path
same_path-sym [] [] = refl
same_path-sym [] (b ∷ q) = refl
same_path-sym (a ∷ p) [] = refl
same_path-sym (a ∷ p) (b ∷ q) = ground (arith, eq_iff a b, eq_iff b a, same_path-sym p q)

unfoldable pub has_path : FilePath → List FilePath → Bool
has_path p [] = false
has_path p (q ∷ rest) = same_path q p || has_path p rest

-- No path stands twice in the list.
abbrev pub HasNoRepeats : List FilePath → Type 0
HasNoRepeats [] = Unit
HasNoRepeats (p ∷ rest) = (has_path p rest ≡ false) × HasNoRepeats rest

has_path-append :
    (p q : FilePath) (paths : List FilePath)
    → has_path p (paths ++ q ∷ []) ≡ (has_path p paths || same_path q p)
unfolding has_path
has_path-append p q [] = ground arith
has_path-append p q (first ∷ rest) = ground (arith, has_path-append p q rest)

pub HasNoRepeats-append :
    (paths : List FilePath) (q : FilePath)
    → HasNoRepeats paths
    → has_path q paths ≡ false
    → HasNoRepeats (paths ++ q ∷ [])
unfolding has_path
HasNoRepeats-append [] q h new = (refl, tt)
HasNoRepeats-append (p ∷ rest) q h new = (
  ground (arith, has_path-append p q rest, same_path-sym p q),
  HasNoRepeats-append rest q h.1 (ground arith),
)

-- path.Clean where no part is `..`: the empty parts and the dots go.
unfoldable pub clean : List String → FilePath
clean [] = []
clean (part ∷ rest) =
    let others = clean rest in if str_eq part "" || str_eq part "." then others else part ∷ others

-- The last part, and what precedes it.
unfoldable pub base : FilePath → String
base [] = "."
base (part ∷ []) = part
base (part ∷ next ∷ rest) = base (next ∷ rest)

unfoldable pub dir : FilePath → FilePath
dir [] = []
dir (part ∷ []) = []
dir (part ∷ next ∷ rest) = part ∷ dir (next ∷ rest)

-- The first path is the second one or lies above it.
unfoldable pub is_within : FilePath → FilePath → Bool
is_within [] q = true
is_within (a ∷ p) [] = false
is_within (a ∷ p) (b ∷ q) = str_eq a b && is_within p q

pub is_within-append : (p q : FilePath) → is_within p (p ++ q) ≡ true
unfolding is_within
is_within-append [] q = refl
is_within-append (a ∷ p) q = ground (arith, eq_refl a, is_within-append p q)

pub is_within-same : (p q : FilePath) → is_within p q ≡ false → same_path p q ≡ false
unfolding is_within same_path
is_within-same [] q h = absurd (cc)
is_within-same (a ∷ p) [] h = refl
is_within-same (a ∷ p) (b ∷ q) h = ground (arith, is_within-same p q)

-- What does not lie above the path is another one.
pub is_within-other : (p q : FilePath) → is_within q p ≡ false → same_path p q ≡ false
is_within-other p q h = same_path-sym p q ∙ is_within-same q p h

pub is_within-extended : (p q r : FilePath) → is_within p q ≡ true → is_within p (q ++ r) ≡ true
unfolding is_within
is_within-extended [] q r h = refl
is_within-extended (a ∷ p) [] r h = absurd (cc)
is_within-extended (a ∷ p) (b ∷ q) r h = ground (arith, is_within-extended p q r)

-- What is not above the whole is not its beginning.
pub not_above :
    (prefix rest q : FilePath) → is_within q (prefix ++ rest) ≡ false → same_path prefix q ≡ false
not_above prefix rest q h =
    is_within-other prefix q (ground (arith, is_within-extended q prefix rest))

pub is_within-dir : (p q : FilePath) → is_within p (dir q) ≡ true → is_within p q ≡ true
unfolding is_within dir
is_within-dir [] q h = refl
is_within-dir (a ∷ p) [] h = h
is_within-dir (a ∷ p) (b ∷ []) h = absurd (cc)
is_within-dir (a ∷ p) (b ∷ c ∷ q) h = ground (arith, is_within-dir p (c ∷ q))

-- What is not the path, nor above it, is not on the way to it.
pub not_on_the_way :
    (prefix : FilePath) (part : String) (rest q : FilePath)
    → is_within q (prefix ++ part ∷ rest) ≡ false
    → same_path (prefix ++ part ∷ []) q ≡ false
not_on_the_way prefix part rest q h = elim (Bool-cases (same_path (prefix ++ part ∷ []) q)) [
  | inr other ↦ other
  | inl same ↦
      let at : prefix ++ part ∷ [] ≡ q = (same_path_iff (prefix ++ part ∷ []) q).0 same in
      let within : is_within q (prefix ++ part ∷ rest) ≡ true =
        subst (λ p. is_within p (prefix ++ part ∷ rest) ≡ true) at
          (subst (λ p. is_within (prefix ++ part ∷ []) p ≡ true)
            (append_assoc prefix (part ∷ []) rest) (is_within-append (prefix ++ part ∷ []) rest)) in
      cc
]
