-- ===== src/Shared/Text.antt =====
-- What the program asks of texts: Go's strings package on the native strings.
use Prim.Native.Char.{code}
use Prim.Native.String.{len, slice}
use text.Mathlib.Text.{starts_with}
use edgelab.Shared.Lists.{length}
use edgelab.Shared.Tests.{leb, if◌then◌else◌}
use Prim.Native.Nat.{ℕ, ◌-◌}
use Prim.Native.String.{String}
use mathlib.Core.Bool.{Bool, true, ◌&&◌, ◌||◌}
use mathlib.Core.List.{List, [], ◌∷◌}
use text.Mathlib.Text.{◌==◌}

-- The code points of a text.
abbrev pub codes : String → List ℕ
codes String.[] = []
codes (String.◌∷◌ c s) = code c ∷ codes s

abbrev pub all_codes : (ℕ → Bool) → List ℕ → Bool
all_codes test [] = true
all_codes test (c ∷ s) = test c && all_codes test s

-- strings.HasSuffix
abbrev pub ends_with : String → String → Bool
ends_with s t = leb (len t) (len s) && slice s (len s - len t) (len s) == t

-- strings.TrimPrefix
abbrev pub trim_prefix : String → String → String
trim_prefix s p = if starts_with s p then slice s (len p) (len s) else s

-- strings.TrimSuffix
abbrev pub trim_suffix : String → String → String
trim_suffix s t = if ends_with s t then slice s 0 (len s - len t) else s

-- [a-zA-Z0-9]
abbrev pub is_alphanumeric : ℕ → Bool
is_alphanumeric c =
    (leb b'a' c && leb c b'z') || (leb b'A' c && leb c b'Z') || (leb b'0' c && leb c b'9')

-- A text of `lo` to `hi` characters that all pass the test: the regular expression `^[…]{lo,hi}$`.
abbrev pub matches_class : (ℕ → Bool) → ℕ → ℕ → String → Bool
matches_class test lo hi s =
    leb lo (length (codes s)) && leb (length (codes s)) hi && all_codes test (codes s)
