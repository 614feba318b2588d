-- ===== src/Shared/Table.antt =====
-- Go's `map[string]V` and SQL tables with a text key: association lists. An iteration follows the
-- list, so a theorem over every list covers every iteration order.
use Prim.Native.Nat.{suc}
use Prim.Native.String.{String}
use mathlib.Core.Path.{◌≡◌, refl}
use mathlib.Core.Option.{Option, none, some}
use mathlib.Core.List.{List, [], ◌∷◌}
use native.Mathlib.Omega.{arith}
use text.Mathlib.Text.{◌==◌}
use text.Mathlib.TextEquality.{eq_iff}
use edgelab.Shared.Tests.{if◌then◌else◌}
use edgelab.Shared.Lists.{length}

abbrev pub Table {ℓ} : Type ℓ → Type ℓ
Table V = List (String × V)

module _ {ℓ} {V : Type ℓ} where
  -- `value, exists := m[wanted]`
  unfoldable pub lookup : String → Table V → Option V
  lookup wanted [] = none
  lookup wanted ((key, value) ∷ rest) =
      let later = lookup wanted rest in if key == wanted then some value else later

  -- A map has each key once.
  abbrev pub HasDistinctKeys : Table V → Type ℓ
  HasDistinctKeys [] = Unit
  HasDistinctKeys ((key, value) ∷ rest) = (lookup key rest ≡ none) × HasDistinctKeys rest

  -- `m[key] = value`: the entry of the key is replaced, or a new one comes last.
  unfoldable pub insert : String → V → Table V → Table V
  insert key value [] = (key, value) ∷ []
  insert key value ((name, held) ∷ rest) =
      let later = (name, held) ∷ insert key value rest in
      if name == key then (key, value) ∷ rest else later

  -- `delete(m, key)`
  unfoldable pub delete : String → Table V → Table V
  delete key [] = []
  delete key ((name, held) ∷ rest) =
      let others = delete key rest in if name == key then others else (name, held) ∷ others

  -- What a deletion leaves to be read under each key.
  pub lookup-delete :
      (key wanted : String) (m : Table V)
      → lookup wanted (delete key m) ≡ (if key == wanted then none else lookup wanted m)
  unfolding lookup delete
  lookup-delete key wanted [] = ground arith
  lookup-delete key wanted ((name, held) ∷ rest) =
      ground (
        arith,
        lookup-delete key wanted rest,
        eq_iff name wanted,
        eq_iff name key,
        eq_iff key wanted,
      )

  module _ (key wanted : String) (value : V) where
    -- What a write leaves to be read under each key.
    pub lookup-insert :
        (m : Table V)
        → lookup wanted (insert key value m)
          ≡ (if key == wanted then some value else lookup wanted m)
    unfolding lookup insert
    lookup-insert [] = ground arith
    lookup-insert ((name, held) ∷ rest) =
        ground (arith, lookup-insert rest, eq_iff name wanted, eq_iff name key, eq_iff key wanted)

  module _ (key : String) (value : V) where
    pub insert-HasDistinctKeys :
        (m : Table V) → HasDistinctKeys m → HasDistinctKeys (insert key value m)
    unfolding lookup insert
    insert-HasDistinctKeys [] distinct = (refl, tt)
    insert-HasDistinctKeys ((name, held) ∷ rest) distinct = ground (
      arith,
      lookup-insert key name value rest,
      insert-HasDistinctKeys rest distinct.1,
      eq_iff key name,
      eq_iff name key,
    )

    pub length-insert_new :
        (m : Table V) → lookup key m ≡ none → length (insert key value m) ≡ suc (length m)
    unfolding lookup insert
    length-insert_new [] absent = refl
    length-insert_new ((name, held) ∷ rest) absent = ground (arith, length-insert_new rest)

    pub length-insert_old :
        (old : V) (m : Table V) → lookup key m ≡ some old → length (insert key value m) ≡ length m
    unfolding lookup insert
    length-insert_old old [] present = ground arith
    length-insert_old old ((name, held) ∷ rest) present = ground (arith, length-insert_old old rest)
