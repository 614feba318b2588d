-- ===== src/Grow/Success.antt =====
-- What the success of a step says (cmd/grow/main.go).
use edgelab.Registry.Lives.{wanted}
use edgelab.Grow.Pending.{pending}
use edgelab.Shared.Action.{after_bind}
use edgelab.Shared.Outcome.{ok, Outcome-cases, err, Outcome}
use edgelab.Grow.Step.{
  name_of, carry_out, step, extend, resize, Selection, ask, begin_new, chosen, finish_step, named,
  over, pursue, read_named, select, select_pending, start_new, settle,
}
use edgelab.Shared.{
  List, String, [], arith, inl, inr, refl, some, true, ℕ, ◌*◌, ◌∙◌, ◌∷◌, ◌≡◌, ◌≤◌, Option-cases,
  none, subst, ◌≢◌, ap, Bool-cases, ltb, sym, ◌⊎◌, eq_refl, false, str_eq, ◌++◌,
}
use edgelab.Grow.{
  find_pending, insert_new, Conditions, Flags, GrowthRow, Volume, find_row, grown, mark, mib,
  first_pending, GrowError, Report, call_failed,
}

-- The operation has a row, and the row is marked as done.
abbrev pub IsStored : String → List GrowthRow → Type 0
IsStored id rows = (row : GrowthRow) × (find_row id rows ≡ some row)

abbrev pub IsDone : String → List GrowthRow → Type 0
IsDone id rows = (row : GrowthRow) × (find_row id rows ≡ some row) × (row.done ≡ true)

IsDone-mark : (id : String) (rows : List GrowthRow) → IsStored id rows → IsDone id (mark id rows)
unfolding find_row mark
IsDone-mark id [] (row, h) = cc
IsDone-mark id (first ∷ rest) (row, h) = elim (Bool-cases (str_eq first.id id)) [
  | inl here ↦ (record first { done = true }, ground arith, refl)
  | inr other ↦
      let (done, there, is_done) = IsDone-mark id rest (row, ground arith) in
      (done, ground arith, is_done)
]

IsStored-first_pending :
    (rows : List GrowthRow) (row : GrowthRow) → first_pending rows ≡ some row → IsStored row.id rows
unfolding find_row first_pending
IsStored-first_pending [] row h = cc
IsStored-first_pending (first ∷ rest) row h = elim (Bool-cases (str_eq first.id row.id)) [
  | inl here ↦ (first, ground arith)
  | inr other ↦ elim (Bool-cases first.done) [
    | inl done ↦
        let (found_row, there) = IsStored-first_pending rest row (ground arith) in
        (found_row, ground arith)
    | inr pending ↦ absurd (ground (arith, eq_refl row.id))
  ]
]

IsStored-append : (row : GrowthRow) (rows : List GrowthRow) → IsStored row.id (rows ++ row ∷ [])
unfolding find_row
IsStored-append row [] = (row, ground (arith, eq_refl row.id))
IsStored-append row (first ∷ rest) = elim (Bool-cases (str_eq first.id row.id)) [
  | inl here ↦ (first, ground arith)
  | inr other ↦ let (found_row, there) = IsStored-append row rest in (found_row, ground arith)
]

IsStored-insert_new :
    (row : GrowthRow) (rows after : List GrowthRow)
    → insert_new row rows ≡ some after
    → IsStored row.id after
unfolding insert_new
IsStored-insert_new row rows after h = elim (Option-cases (find_row row.id rows)) [
  | inr (old, e) ↦ absurd (ground arith)
  | inl e ↦
      let same : rows ++ row ∷ [] ≡ after = ground arith in
      subst (IsStored row.id) same (IsStored-append row rows)
]

module _ (uuid : String) (flags : Flags) (c : Conditions) where
  settle_ok :
      (id : String) (wanted : ℕ) (v : Volume) (k : String) (n lv fs : ℕ)
      → (settle uuid flags c id wanted v).1 ≡ ok (grown k n lv fs)
      → (id ≡ k)
        × (wanted ≡ n)
        × (n ≤ lv)
        × (n ≤ fs)
        × (v.lv_bytes ≡ lv)
        × (v.filesystem_bytes ≡ fs)
  unfolding settle
  settle_ok id wanted v k n lv fs h =
      (ground arith, ground arith, ground arith, ground arith, ground arith, ground arith)

  settle_state :
      (id : String) (wanted : ℕ) (v : Volume) (report : Report)
      → (settle uuid flags c id wanted v).1 ≡ ok report
      → (settle uuid flags c id wanted v).0 ≡ record v { operations = mark id v.operations }
  unfolding settle
  settle_state id wanted v report h = ground arith

  -- Success comes from the last part, at a volume with the same operations.
  abbrev Settles : String → ℕ → Volume → Type 0
  Settles id wanted v =
      (w : Volume) × (w.operations ≡ v.operations)
      × (wanted ≤ flags.maximum * mib)
      × (carry_out uuid flags c id wanted v ≡ settle uuid flags c id wanted w)

  Settles-resize :
      (id : String) (wanted lv : ℕ) (v : Volume) (report : Report)
      → extend uuid flags c wanted v ≡ (record v { lv_bytes = lv }, ok tt)
      → (carry_out uuid flags c id wanted v).1 ≡ ok report
      → Settles id wanted v
  unfolding carry_out resize
  Settles-resize id wanted lv v report extended h =
      elim (Option-cases (c.resize2fs lv v.filesystem_bytes)) [
        | inl failed ↦ absurd (ground arith)
        | inr (fs, e) ↦
            (record v { lv_bytes = lv; filesystem_bytes = fs }, refl, ground arith, ground arith)
      ]

  extend_cases :
      (wanted : ℕ) (v : Volume)
      → ((lv : ℕ) × (extend uuid flags c wanted v ≡ (record v { lv_bytes = lv }, ok tt)))
        ⊎ ((e : GrowError) × (extend uuid flags c wanted v ≡ (v, err e)))
  unfolding extend
  extend_cases wanted v = elim (Bool-cases (ltb v.lv_bytes wanted)) [
    | inr above ↦ inl (v.lv_bytes, ground arith)
    | inl below ↦ elim (Option-cases (c.lvextend v.lv_bytes wanted)) [
      | inl failed ↦ inr (call_failed, ground arith)
      | inr (lv, e) ↦ inl (lv, ground arith)
    ]
  ]

  carry_out-Settles :
      (id : String) (wanted : ℕ) (v : Volume) (report : Report)
      → (carry_out uuid flags c id wanted v).1 ≡ ok report
      → Settles id wanted v
  unfolding carry_out
  carry_out-Settles id wanted v report h = elim (extend_cases wanted v) [
    | inl (lv, e) ↦ Settles-resize id wanted lv v report e h
    | inr (e, bad) ↦ absurd (ground arith)
  ]

  -- What a report of growth says: both sizes reach the target, which is within the limit, they are
  -- those of the volume, and the operation is done.
  abbrev pub Grows : Volume → String → ℕ → ℕ → ℕ → Type 0
  Grows v k n lv fs =
      (n ≤ lv)
      × (n ≤ fs)
      × (n ≤ flags.maximum * mib)
      × (v.lv_bytes ≡ lv)
      × (v.filesystem_bytes ≡ fs)
      × IsDone k v.operations

  Grows-carry_out :
      (id : String) (wanted : ℕ) (v : Volume) (k : String) (n lv fs : ℕ)
      → IsStored id v.operations
      → (carry_out uuid flags c id wanted v).1 ≡ ok (grown k n lv fs)
      → Grows (carry_out uuid flags c id wanted v).0 k n lv fs
  Grows-carry_out id wanted v k n lv fs stored h =
      let (w, kept, fits, same) = carry_out-Settles id wanted v (grown k n lv fs) h in
      let h' = ap (λ r. r.1) (sym same) ∙ h in
      let (ids, sizes, a, b, l, f) = settle_ok id wanted w k n lv fs h' in
      let at = ap (λ r. r.0) same ∙ settle_state id wanted w (grown k n lv fs) h' in
      (
        a,
        b,
        omega arith,
        ap (λ x. x.lv_bytes) at ∙ l,
        ap (λ x. x.filesystem_bytes) at ∙ f,
        subst (IsDone k) (sym (ap (λ x. x.operations) at)) (
            subst (λ i. IsDone i (mark id w.operations)) ids
              (IsDone-mark id w.operations (subst (IsStored id) (sym kept) stored))),
      )

  -- A selection that ends the step reports no growth.
  read_named_over :
      (v : Volume) (k : String) (n lv fs : ℕ)
      → read_named uuid flags c v ≢ ok (inr (grown k n lv fs))
  unfolding read_named named
  read_named_over v k n lv fs h = ground arith

  select_over :
      (v : Volume) (k : String) (n lv fs : ℕ)
      → (select uuid flags c v).1 ≢ ok (over (grown k n lv fs))
  unfolding select select_pending pursue start_new begin_new
  select_over v k n lv fs h = elim (Outcome-cases (read_named uuid flags c v)) [
    | inr (x, e) ↦ ground arith
    | inl (inr report, e) ↦ ground (arith, read_named_over v k n lv fs)
    | inl (inl wanted, e) ↦ elim (Option-cases (first_pending v.operations)) [
      | inr (row, e') ↦ ground arith
      | inl e' ↦ elim (Outcome-cases (ask uuid flags c v.lv_bytes wanted)) [
        | inr (x, e'') ↦ ground arith
        | inl (none, e'') ↦ ground arith
        | inl (some size, e'') ↦ ground arith
      ]
    ]
  ]

  -- The operation that is carried out has a row.
  abbrev HasRow : Volume × Outcome GrowError Selection → Type 0
  HasRow r = (id : String) (wanted : ℕ) → r.1 ≡ ok (chosen id wanted) → IsStored id r.0.operations

  HasRow-begin_new :
      (id : String) (current wanted : ℕ) (v : Volume)
      → HasRow (begin_new uuid flags c id current wanted v)
  unfolding begin_new
  HasRow-begin_new id current wanted v k n h =
      let row : GrowthRow = record {
        id = name_of uuid flags c id;
        uuid = uuid;
        target = wanted;
        done = false;
      } in
      elim (Option-cases (insert_new row v.operations)) [
        | inl e ↦ absurd (ground arith)
        | inr (rows, e) ↦
            let same : row.id ≡ k = ground arith in
            let after : (begin_new uuid flags c id current wanted v).0.operations ≡ rows =
              ground arith in
            subst (IsStored k) (sym after)
              (subst (λ i. IsStored i rows) same (IsStored-insert_new row v.operations rows e))
      ]

  HasRow-select : (v : Volume) → HasRow (select uuid flags c v)
  unfolding select select_pending pursue start_new
  HasRow-select v k n h = elim (Outcome-cases (read_named uuid flags c v)) [
    | inr (x, e) ↦ absurd (ground arith)
    | inl (inr report, e) ↦ absurd (ground arith)
    | inl (inl wanted, e) ↦ elim (Bool-cases (c.fails find_pending)) [
      | inl bad ↦ absurd (ground arith)
      | inr works ↦ elim (Option-cases (first_pending v.operations)) [
        | inr (row, e') ↦
            let same : row.id ≡ k = ground arith in
            let kept : (select uuid flags c v).0.operations ≡ v.operations = ground arith in
            subst (IsStored k) (sym kept) (
              subst (λ i. IsStored i v.operations) same
                (IsStored-first_pending v.operations row e'))
        | inl e' ↦ elim (Outcome-cases (ask uuid flags c v.lv_bytes wanted)) [
          | inr (x, e'') ↦ absurd (ground arith)
          | inl (none, e'') ↦ absurd (ground arith)
          | inl (some size, e'') ↦
              let same : select uuid flags c v
                  ≡ begin_new uuid flags c flags.operation v.lv_bytes size v =
                ground arith in
              subst (λ r. IsStored k r.0.operations) (sym same)
                (HasRow-begin_new flags.operation v.lv_bytes size v k n
                  (ap (λ r. r.1) (sym same) ∙ h))
        ]
      ]
    ]
  ]

  Grows-finish_step :
      (x : Selection) (v : Volume) (k : String) (n lv fs : ℕ)
      → x ≢ over (grown k n lv fs)
      → ((id : String) (wanted : ℕ) → x ≡ chosen id wanted → IsStored id v.operations)
      → (finish_step uuid flags c x v).1 ≡ ok (grown k n lv fs)
      → Grows (finish_step uuid flags c x v).0 k n lv fs
  unfolding finish_step
  Grows-finish_step (over report) v k n lv fs not_over stored h = absurd (not_over (ground arith))
  Grows-finish_step (chosen id wanted) v k n lv fs not_over stored h =
      Grows-carry_out id wanted v k n lv fs (stored id wanted refl) h

  -- When a step reports that an operation has grown the volume, both the logical volume and the
  -- filesystem have reached its target, which is within the allocation limit, the sizes that it
  -- reports are those of the volume, and the operation has its row, marked as done.
  pub step_grown :
      (v : Volume) (k : String) (n lv fs : ℕ)
      → (step uuid flags c v).1 ≡ ok (grown k n lv fs)
      → Grows (step uuid flags c v).0 k n lv fs
  unfolding step
  step_grown v k n lv fs =
      after_bind (λ r. r.1 ≡ ok (grown k n lv fs) → Grows r.0 k n lv fs) (select uuid flags c)
        (finish_step uuid flags c) v (λ e h h'. ground arith)
        (λ x h.
          Grows-finish_step x (select uuid flags c v).0 k n lv fs
            (λ e. select_over v k n lv fs (h ∙ ap ok e))
            (λ id wanted e. HasRow-select v id wanted (h ∙ ap ok e)))
