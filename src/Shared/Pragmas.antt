-- ===== src/Shared/Pragmas.antt =====
-- Answers that must be a given text, and the settings of SQLite that make a commit durable.
use Prim.Native.Nat.{ℕ}
use Prim.Native.String.{String}
use mathlib.Core.Path.{ap, ◌∙◌, ◌≡◌}
use mathlib.Core.Bool.{Bool, false, true, ◌&&◌}
use mathlib.Core.Option.{Option, none, some}
use mathlib.Core.Logic.{inl, inr}
use native.Mathlib.Omega.{arith}
use text.Mathlib.Text.{◌==◌ as str_eq}
use text.Mathlib.TextEquality.{eq_iff}
use edgelab.Shared.Tests.{Option-cases, ◌==◌}

-- An answer that could be had, and is the text.
unfoldable pub is_text : String → Option String → Bool
is_text want none = false
is_text want (some s) = str_eq s want

pub is_text_iff : (want : String) (o : Option String) → is_text want o ≡ true → o ≡ some want
unfolding is_text
is_text_iff want none h = cc
is_text_iff want (some s) h = ground (arith, eq_iff s want)

-- journal == "wal" and synchronous == 2
unfoldable pub is_durable : Option String → Option ℕ → Bool
unfolding is_text
is_durable journal synchronous =
    is_text "wal" journal && elim synchronous [ none ↦ false | some n ↦ n == 2 ]

pub is_durable_sound :
    (journal : Option String) (synchronous : Option ℕ)
    → is_durable journal synchronous ≡ true
    → (journal ≡ some "wal") × (synchronous ≡ some 2)
unfolding is_durable
is_durable_sound journal synchronous h = (
  is_text_iff "wal" journal (ground arith),
  elim (Option-cases synchronous) [
    | inl missing ↦ absurd (ground arith)
    | inr (n, there) ↦ there ∙ ap some (ground arith)
  ],
)
