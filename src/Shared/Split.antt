-- ===== src/Shared/Split.antt =====
-- Texts taken apart: strings.Split with a separator of one character, and bytes by their index.
use Prim.Native.Char.{Char, code}
use Prim.Native.String.{String}
use Prim.Native.Nat.{ℕ, zero, suc}
use mathlib.Core.Path.{◌≡◌, refl}
use mathlib.Core.Logic.{inl, inr}
use mathlib.Core.Bool.{true, false, not}
use mathlib.Core.Option.{Option, none, some}
use mathlib.Core.List.{List, [], ◌∷◌}
use native.Mathlib.Omega.{arith}
use edgelab.Shared.Tests.{Bool-cases, ◌==◌, if◌then◌else◌}
use edgelab.Shared.Text.{all_codes, codes}

-- The first part goes on by a character.
abbrev pub prepend : Char → List String → List String
prepend c [] = (String.◌∷◌ c String.[]) ∷ []
prepend c (part ∷ rest) = (String.◌∷◌ c part) ∷ rest

unfoldable pub split : ℕ → String → List String
split separator String.[] = "" ∷ []
split separator (String.◌∷◌ c s) =
    let parts = split separator s in if code c == separator then "" ∷ parts else prepend c parts

-- s[n], where the text has that many characters.
abbrev pub char_at : ℕ → List ℕ → Option ℕ
char_at n [] = none
char_at zero (c ∷ rest) = some c
char_at (suc n) (c ∷ rest) = char_at n rest

abbrev pub AllWithout : ℕ → List String → Type 0
AllWithout separator [] = Unit
AllWithout separator (part ∷ rest) =
    (all_codes (λ c. not (c == separator)) (codes part) ≡ true) × AllWithout separator rest

AllWithout-prepend :
    (separator : ℕ) (c : Char) (parts : List String)
    → (code c == separator) ≡ false
    → AllWithout separator parts
    → AllWithout separator (prepend c parts)
AllWithout-prepend separator c [] other h = ground arith
AllWithout-prepend separator c (part ∷ rest) other h = ground arith

-- No part has the separator in it.
pub split-AllWithout : (separator : ℕ) (s : String) → AllWithout separator (split separator s)
unfolding split
split-AllWithout separator String.[] = (refl, tt)
split-AllWithout separator (String.◌∷◌ c s) =
    let rest = split-AllWithout separator s in
    elim (Bool-cases (code c == separator)) [
      | inl same ↦ rw same (refl, rest)
      | inr other ↦ rw other (AllWithout-prepend separator c (split separator s) other rest)
    ]
