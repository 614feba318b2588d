-- ===== src/Grow/Done.antt =====
-- What a step of the growth controller keeps (cmd/grow/main.go).
use edgelab.Grow.Step.{step}
use edgelab.Grow.Pending.{Selects, step-rows}
use edgelab.Shared.{
  List, String, [], arith, eq_iff, inl, inr, refl, some, str_eq, true, ◌++◌, ◌||◌, ◌∙◌, ◌∷◌, ◌≡◌,
}
use edgelab.Grow.{Conditions, Flags, GrowthRow, Volume, find_row, mark}

find_row-append :
    (id : String) (rows : List GrowthRow) (new row : GrowthRow)
    → find_row id rows ≡ some row
    → find_row id (rows ++ new ∷ []) ≡ some row
unfolding find_row
find_row-append id [] new row h = cc
find_row-append id (first ∷ rest) new row h = ground (arith, find_row-append id rest new row)

find_row-mark :
    (id j : String) (rows : List GrowthRow) (row : GrowthRow)
    → find_row id rows ≡ some row
    → find_row id (mark j rows) ≡ some (record row { done = str_eq id j || row.done })
unfolding find_row mark
find_row-mark id j [] row h = cc
find_row-mark id j (first ∷ rest) row h =
    ground (arith, find_row-mark id j rest row, eq_iff first.id id, eq_iff first.id j, eq_iff id j)

-- A stored operation keeps its volume and its target, and once done it stays done.
abbrev pub Keeps : List GrowthRow → List GrowthRow → Type 0
Keeps rows rows' =
    (id : String) (row : GrowthRow)
    → find_row id rows ≡ some row
    → (row' : GrowthRow) × (find_row id rows' ≡ some row')
      × (row'.uuid ≡ row.uuid)
      × (row'.target ≡ row.target)
      × (row.done ≡ true → row'.done ≡ true)

pub Keeps-refl : (rows : List GrowthRow) → Keeps rows rows
Keeps-refl rows id row h = (row, h, refl, refl, λ d. d)

pub Keeps-trans :
    (rows rows' rows'' : List GrowthRow) → Keeps rows rows' → Keeps rows' rows'' → Keeps rows rows''
Keeps-trans rows rows' rows'' first later id row h =
    let (row', h', volume, target, done) = first id row h in
    let (row'', h'', volume', target', done') = later id row' h' in
    (row'', h'', volume' ∙ volume, target' ∙ target, λ d. done' (done d))

Keeps-mark : (j : String) (rows : List GrowthRow) → Keeps rows (mark j rows)
Keeps-mark j rows id row h = (
  record row { done = str_eq id j || row.done },
  find_row-mark id j rows row h,
  refl,
  refl,
  λ d. ground arith,
)

module _ (uuid : String) (flags : Flags) (c : Conditions) where
  Keeps-Selects : (rows rows' : List GrowthRow) → Selects uuid flags c rows rows' → Keeps rows rows'
  Keeps-Selects rows rows' (inl same) id row h = (row, rw same h, refl, refl, λ d. d)
  Keeps-Selects rows rows' (inr (new, undone, fits, idle, fresh, e)) id row h =
      (row, rw e (find_row-append id rows new row h), refl, refl, λ d. d)

  -- No step, whatever fails and wherever the process stops, changes the volume or the target of a
  -- stored operation, or takes back that it is done.
  pub step-Keeps : (v : Volume) → Keeps v.operations (step uuid flags c v).0.operations
  step-Keeps v id row h =
      let (rows, selected, marked) = step-rows uuid flags c v in
      let (row', h', volume, target, done) = Keeps-Selects v.operations rows selected id row h in
      elim marked [
        | inl e ↦ (row', rw e h', volume, target, done)
        | inr (j, e) ↦
            let (row'', h'', volume', target', done') = Keeps-mark j rows id row' h' in
            (row'', rw e h'', volume' ∙ volume, target' ∙ target, λ d. done' (done d))
      ]
