-- ===== src/Grow/Resumption.antt =====
-- An interrupted growth is taken up again (cmd/grow/main.go).
use edgelab.Shared.Outcome.{ok}
use edgelab.Grow.Step.{
  finish_step, named, read_named, select, select_pending, step, carry_out, chosen, extend, pursue,
  resize, stop_at, settle,
}
use edgelab.Shared.{
  String, arith, eq_iff, false, some, true, ℕ, ◌*◌, ◌≡◌, ◌≢◌, ◌≤◌, ◌⊎◌, Bool-cases, inl, inr, ltb,
  refl, str_eq, ap, ◌∙◌,
}
use edgelab.Grow.{
  Call, Conditions, Flags, GrowthRow, Volume, already_complete, find_operation, find_row, mib,
  read_size, dump_superblock, find_pending, first_pending, grown, mark_done, reread_size,
}

-- Nothing fails, the volume is mounted, and both tools reach the size that they are asked for.
pub record AreGood (c : Conditions) (wanted : ℕ) : Type 0 where
  pub mounted : c.is_mounted ≡ true
  pub nothing_fails : (x : Call) → c.fails x ≡ false
  pub extends : (current : ℕ) → (n : ℕ) × (c.lvextend current wanted ≡ some n) × (wanted ≤ n)
  pub resizes : (lv fs : ℕ) → wanted ≤ lv → (n : ℕ) × (c.resize2fs lv fs ≡ some n) × (wanted ≤ n)

ltb_at_most : (x y : ℕ) → ltb x y ≡ false → y ≤ x
ltb_at_most x y h = ground arith

module _ (uuid : String) (flags : Flags) (c : Conditions) (v : Volume) where
  -- To ask again for an operation that is done changes nothing, and reports its size.
  step_again :
      (row : GrowthRow)
      → c.is_mounted ≡ true
      → c.fails read_size ≡ false
      → c.fails find_operation ≡ false
      → flags.operation ≢ ""
      → find_row flags.operation v.operations ≡ some row
      → row.uuid ≡ uuid
      → row.done ≡ true
      → (flags.target ≡ 0) ⊎ (row.target ≡ flags.target * mib)
      → step uuid flags c v ≡ (v, ok (already_complete row.id row.target))
  unfolding step select read_named select_pending finish_step
  step_again row mounted s f named found same done target =
      ground (arith, eq_iff flags.operation "", eq_iff row.uuid uuid)

  -- An operation that is pending is what an unnamed step works on.
  select_pending_row :
      (row : GrowthRow)
      → c.is_mounted ≡ true
      → ((x : Call) → c.fails x ≡ false)
      → flags.operation ≡ ""
      → first_pending v.operations ≡ some row
      → select uuid flags c v ≡ (v, ok (chosen row.id row.target))
  unfolding select read_named named select_pending pursue
  select_pending_row row mounted good unnamed found =
      ground (arith, eq_iff flags.operation "", good read_size, good find_pending)

  settle_grown :
      (id : String) (wanted : ℕ) (w : Volume)
      → ((x : Call) → c.fails x ≡ false)
      → str_eq flags.crash_after "complete" ≡ false
      → wanted ≤ w.lv_bytes
      → wanted ≤ w.filesystem_bytes
      → (settle uuid flags c id wanted w).1 ≡ ok (grown id wanted w.lv_bytes w.filesystem_bytes)
  unfolding settle stop_at
  settle_grown id wanted w good d enough enough' =
      ground (arith, good reread_size, good dump_superblock, good mark_done)

  carry_out-settle :
      (id : String) (wanted lv fs : ℕ)
      → str_eq flags.crash_after "lv" ≡ false
      → str_eq flags.crash_after "filesystem" ≡ false
      → wanted ≤ flags.maximum * mib
      → (ltb v.lv_bytes wanted ≡ true) × (c.lvextend v.lv_bytes wanted ≡ some lv)
        ⊎ (ltb v.lv_bytes wanted ≡ false) × (v.lv_bytes ≡ lv)
      → c.resize2fs lv v.filesystem_bytes ≡ some fs
      → carry_out uuid flags c id wanted v
        ≡ settle uuid flags c id wanted (record v { lv_bytes = lv; filesystem_bytes = fs })
  unfolding carry_out extend resize stop_at
  carry_out-settle id wanted lv fs a b fits (inl (below, e)) e' = ground arith
  carry_out-settle id wanted lv fs a b fits (inr (above, e)) e' = ground arith

  carry_out_grown :
      (id : String) (wanted lv fs : ℕ)
      → ((x : Call) → c.fails x ≡ false)
      → flags.crash_after ≡ ""
      → wanted ≤ flags.maximum * mib
      → (ltb v.lv_bytes wanted ≡ true) × (c.lvextend v.lv_bytes wanted ≡ some lv)
        ⊎ (ltb v.lv_bytes wanted ≡ false) × (v.lv_bytes ≡ lv)
      → c.resize2fs lv v.filesystem_bytes ≡ some fs
      → wanted ≤ lv
      → wanted ≤ fs
      → (carry_out uuid flags c id wanted v).1 ≡ ok (grown id wanted lv fs)
  carry_out_grown id wanted lv fs good runs fits extended e enough enough' =
      ap (λ r. r.1) (carry_out-settle id wanted lv fs (rw runs refl) (rw runs refl) fits extended e)
      ∙ settle_grown id wanted (record v { lv_bytes = lv; filesystem_bytes = fs }) good
          (rw runs refl) enough enough'

  carry_out_completes :
      (id : String) (wanted : ℕ)
      → AreGood c wanted
      → flags.crash_after ≡ ""
      → wanted ≤ flags.maximum * mib
      → (lv : ℕ) × (fs : ℕ) × ((carry_out uuid flags c id wanted v).1 ≡ ok (grown id wanted lv fs))
  carry_out_completes id wanted good runs fits = elim (Bool-cases (ltb v.lv_bytes wanted)) [
    | inl below ↦
        let (n, e, enough) = good.extends v.lv_bytes in
        let (m, e', enough') = good.resizes n v.filesystem_bytes enough in
        (
          n,
          m,
          carry_out_grown id wanted n m good.nothing_fails runs fits (inl (below, e)) e' enough
              enough',
        )
    | inr above ↦
        let enough = ltb_at_most v.lv_bytes wanted above in
        let (m, e', enough') = good.resizes v.lv_bytes v.filesystem_bytes enough in
        (
          v.lv_bytes,
          m,
          carry_out_grown id wanted v.lv_bytes m good.nothing_fails runs fits (inr (above, refl)) e'
              enough enough',
        )
  ]

  -- If an operation is pending and its target is within the limit, then a step without a named
  -- operation, where nothing fails and both tools reach the size asked for, carries that operation
  -- out with the target that was stored.
  pub step_resumes :
      (row : GrowthRow)
      → AreGood c row.target
      → flags.operation ≡ ""
      → flags.crash_after ≡ ""
      → first_pending v.operations ≡ some row
      → row.target ≤ flags.maximum * mib
      → (lv : ℕ) × (fs : ℕ) × ((step uuid flags c v).1 ≡ ok (grown row.id row.target lv fs))
  unfolding step finish_step
  step_resumes row good unnamed runs found fits =
      let (lv, fs, e) = carry_out_completes row.id row.target good runs fits in
      let chosen_row = select_pending_row row good.mounted good.nothing_fails unnamed found in
      (lv, fs, ground arith)
