-- ===== src/Grow/Pending.antt =====
-- The operations of the growth controller (cmd/grow/main.go): one at a time, and never changed.
use edgelab.Shared.Action.{after_bind}
use edgelab.Grow.Step.{
  select, Selection, admit_size, ask, begin_new, name_of, pursue, read_named, select_pending,
  carry_out, chosen, finish_step, over, step, settle,
}
use edgelab.Shared.Outcome.{Outcome-cases}
use edgelab.Shared.{
  List, String, [], arith, false, if◌then◌else◌, none, refl, suc, ℕ, ◌++◌, ◌∷◌, ◌≡◌, ◌≤◌,
  Bool-cases, Option, Option-cases, inl, inr, some, subst, ◌*◌, ◌⊎◌,
}
use edgelab.Grow.{
  Conditions, Flags, GrowthRow, Volume, first_pending, insert_new, mark, find_row, insert_row, mib,
  find_pending,
}

-- The operations that are not done.
abbrev pub pending : List GrowthRow → ℕ
pending [] = 0
pending (row ∷ rest) = if row.done then pending rest else suc (pending rest)

pending_none : (rows : List GrowthRow) → first_pending rows ≡ none → pending rows ≡ 0
unfolding first_pending
pending_none [] h = refl
pending_none (row ∷ rest) h = ground (arith, pending_none rest)

pending-append :
    (rows : List GrowthRow) (row : GrowthRow)
    → row.done ≡ false
    → pending (rows ++ row ∷ []) ≡ suc (pending rows)
pending-append [] row h = ground arith
pending-append (first ∷ rest) row h = ground (arith, pending-append rest row h)

pending-mark-le : (id : String) (rows : List GrowthRow) → pending (mark id rows) ≤ pending rows
unfolding mark
pending-mark-le id [] = omega arith
pending-mark-le id (row ∷ rest) = ground (arith, pending-mark-le id rest)

module _ (uuid : String) (flags : Flags) (c : Conditions) where
  -- The rows are as they were, or there is one more, of a new operation within the limit, and none
  -- was pending.
  abbrev pub Selects : List GrowthRow → List GrowthRow → Type 0
  Selects rows rows' =
      (rows' ≡ rows)
      ⊎ ((row : GrowthRow) × (row.done ≡ false)
          × (row.target ≤ flags.maximum * mib)
          × (first_pending rows ≡ none)
          × (find_row row.id rows ≡ none)
          × (rows' ≡ rows ++ row ∷ []))

  Selects-begin_new :
      (id : String) (current wanted : ℕ) (v : Volume)
      → first_pending v.operations ≡ none
      → Selects v.operations (begin_new uuid flags c id current wanted v).0.operations
  unfolding begin_new insert_new admit_size
  Selects-begin_new id current wanted v idle =
      elim (Outcome-cases (admit_size uuid flags c current wanted)) [
        | inr (x, e) ↦ inl (ground arith)
        | inl (u, e) ↦ elim (Bool-cases (c.fails insert_row)) [
          | inl e' ↦ inl (ground arith)
          | inr e' ↦ elim (Option-cases (find_row (name_of uuid flags c id) v.operations)) [
            | inr (old, e'') ↦ inl (ground arith)
            | inl new ↦ inr (
              record { id = name_of uuid flags c id; uuid = uuid; target = wanted; done = false },
              refl,
              ground arith,
              idle,
              new,
              ground arith,
            )
          ]
        ]
      ]

  Selects-pursue :
      (id : String) (current wanted : ℕ) (o : Option GrowthRow) (v : Volume)
      → first_pending v.operations ≡ o
      → Selects v.operations (pursue uuid flags c id current wanted o v).0.operations
  unfolding pursue
  Selects-pursue id current wanted (some row) v e = inl (ground arith)
  Selects-pursue id current wanted none v e =
      elim (Outcome-cases (ask uuid flags c current wanted)) [
        | inr (x, e') ↦ inl (ground arith)
        | inl (none, e') ↦ inl (ground arith)
        | inl (some size, e') ↦
            let same : (begin_new uuid flags c id current size v).0.operations
                ≡ (pursue uuid flags c id current wanted none v).0.operations =
              ground arith in
            subst (Selects v.operations) same (Selects-begin_new id current size v e)
      ]

  Selects-select : (v : Volume) → Selects v.operations (select uuid flags c v).0.operations
  unfolding select select_pending
  Selects-select v = elim (Outcome-cases (read_named uuid flags c v)) [
    | inr (x, e) ↦ inl (ground arith)
    | inl (inr report, e) ↦ inl (ground arith)
    | inl (inl wanted, e) ↦ elim (Bool-cases (c.fails find_pending)) [
      | inl e' ↦ inl (ground arith)
      | inr e' ↦
          let same : (pursue uuid flags c flags.operation v.lv_bytes wanted
                (first_pending v.operations) v).0.operations
              ≡ (select uuid flags c v).0.operations =
            ground arith in
          subst (Selects v.operations) same
            (Selects-pursue flags.operation v.lv_bytes wanted (first_pending v.operations) v refl)
    ]
  ]

  -- Carrying out changes the rows only by marking the operation done.
  rows-carry_out :
      (id : String) (wanted : ℕ) (v : Volume)
      → ((carry_out uuid flags c id wanted v).0.operations ≡ v.operations)
        ⊎ ((carry_out uuid flags c id wanted v).0.operations ≡ mark id v.operations)
  unfolding carry_out settle
  rows-carry_out id wanted v = ground arith

  rows-finish_step :
      (x : Selection) (v : Volume)
      → ((finish_step uuid flags c x v).0.operations ≡ v.operations)
        ⊎ ((id : String) × ((finish_step uuid flags c x v).0.operations ≡ mark id v.operations))
  unfolding finish_step
  rows-finish_step (over report) v = inl refl
  rows-finish_step (chosen id wanted) v = elim (rows-carry_out id wanted v) [
    | inl e ↦ inl e
    | inr e ↦ inr (id, e)
  ]

  -- A step of the controller: the rows after the choice, and perhaps one marked done.
  pub step-rows :
      (v : Volume)
      → (chosen_rows : List GrowthRow) × Selects v.operations chosen_rows
        × (((step uuid flags c v).0.operations ≡ chosen_rows)
            ⊎ ((id : String) × ((step uuid flags c v).0.operations ≡ mark id chosen_rows)))
  unfolding step
  step-rows v = (
    (select uuid flags c v).0.operations,
    Selects-select v,
    after_bind
        (λ r.
          (r.0.operations ≡ (select uuid flags c v).0.operations)
          ⊎ ((id : String) × (r.0.operations ≡ mark id (select uuid flags c v).0.operations)))
        (select uuid flags c) (finish_step uuid flags c) v (λ e h. inl refl)
        (λ x h. rows-finish_step x (select uuid flags c v).0),
  )

  pending-Selects :
      (rows rows' : List GrowthRow) → Selects rows rows' → pending rows ≤ 1 → pending rows' ≤ 1
  pending-Selects rows rows' (inl same) h = rw same h
  pending-Selects rows rows' (inr (row, undone, fits, idle, new, e)) h =
      rw (e, pending-append rows row undone, pending_none rows idle) (omega arith)

  -- At most one operation is ever pending, whatever fails and wherever the process stops.
  pub step_one_pending :
      (v : Volume) → pending v.operations ≤ 1 → pending (step uuid flags c v).0.operations ≤ 1
  step_one_pending v h =
      let (rows, selected, marked) = step-rows v in
      let few = pending-Selects v.operations rows selected h in
      elim marked [ inl e ↦ rw e few | inr (id, e) ↦ rw e (omega (arith, pending-mark-le id rows)) ]
