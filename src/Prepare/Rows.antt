-- ===== src/Prepare/Rows.antt =====
-- Rows of `operations` that are updated or inserted (cmd/worker/main.go).
-- A stored operation keeps its image, its size and its snapshot, and another than the run's keeps
-- all.
use edgelab.Registry.{snapshot}
use edgelab.Shared.Table.{Table, insert, lookup, lookup-insert}
use edgelab.Prepare.{OperationRow, insert_missing, update_row}
use edgelab.Shared.{
  Bool-cases, Option-cases, String, ap, arith, eq_iff, false, inl, inr, refl, some, str_eq, ◌∙◌,
  ◌≡◌,
}

abbrev pub KeepsRows : String → Table OperationRow → Table OperationRow → Type 0
KeepsRows id rows rows' =
    (k : String) (row : OperationRow)
    → lookup k rows ≡ some row
    → (row' : OperationRow) × (lookup k rows' ≡ some row')
      × (row'.image ≡ row.image)
      × (row'.size ≡ row.size)
      × (row'.snapshot ≡ row.snapshot)
      × (str_eq id k ≡ false → row' ≡ row)

-- What was asked for is not touched.
abbrev pub IsUpdate : (OperationRow → OperationRow) → Type 0
IsUpdate f =
    (row : OperationRow)
    → ((f row).image ≡ row.image) × ((f row).size ≡ row.size) × ((f row).snapshot ≡ row.snapshot)

pub KeepsRows-update_row :
    (f : OperationRow → OperationRow) (id : String) (start rows : Table OperationRow)
    → IsUpdate f
    → KeepsRows id start rows
    → KeepsRows id start (update_row f id rows)
unfolding update_row
KeepsRows-update_row f id start rows alters h k row known =
    let (row', there, image, size, snapshot, other) = h k row known in
    elim (Option-cases (lookup id rows)) [
      | inl e ↦
          let same : update_row f id rows ≡ rows = ground arith in
          (row', ap (lookup k) same ∙ there, image, size, snapshot, other)
      | inr (old, e) ↦
          let written : update_row f id rows ≡ insert id (f old) rows = ground arith in
          elim (Bool-cases (str_eq id k)) [
            | inl same ↦
                let at : id ≡ k = (eq_iff id k).0 same in
                let is_old : row' ≡ old = ground arith in
                (
                  f row',
                  ap (lookup k) written ∙ ground (arith, lookup-insert id k (f old) rows),
                  (alters row').0 ∙ image,
                  (alters row').1 ∙ size,
                  (alters row').2 ∙ snapshot,
                  λ differ. absurd (ground arith),
                )
            | inr differ ↦ (
              row',
              ap (lookup k) written ∙ ground (arith, lookup-insert id k (f old) rows),
              image,
              size,
              snapshot,
              other,
            )
          ]
    ]

pub KeepsRows-insert_missing :
    (id : String) (new : OperationRow) (rows : Table OperationRow)
    → KeepsRows id rows (insert_missing id new rows)
unfolding insert_missing
KeepsRows-insert_missing id new rows k row known = elim (Option-cases (lookup id rows)) [
  | inr (old, e) ↦
      let same : insert_missing id new rows ≡ rows = ground arith in
      (row, ap (lookup k) same ∙ known, refl, refl, refl, λ d. refl)
  | inl e ↦
      let written : insert_missing id new rows ≡ insert id new rows = ground arith in
      (
        row,
        ap (lookup k) written ∙ ground (arith, lookup-insert id k new rows, eq_iff id k),
        refl,
        refl,
        refl,
        λ d. refl,
      )
]

pub updated_row :
    (f : OperationRow → OperationRow) (id : String) (rows : Table OperationRow) (row : OperationRow)
    → lookup id (update_row f id rows) ≡ some row
    → (old : OperationRow) × (lookup id rows ≡ some old) × (row ≡ f old)
unfolding update_row
updated_row f id rows row h = elim (Option-cases (lookup id rows)) [
  | inl e ↦ absurd (ground arith)
  | inr (old, e) ↦ (old, e, ground (arith, lookup-insert id id (f old) rows, eq_iff id id))
]
