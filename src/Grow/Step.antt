-- ===== src/Grow/Step.antt =====
-- One reconciliation of the growth controller (cmd/grow/main.go): the closure `step`.
use edgelab.Shared.Outcome.{Outcome, err, expect, ok}
use edgelab.Shared.{
  Option, String, false, if◌then◌else◌, inl, inr, ltb, none, not, some, str_eq, ℕ, ◌&&◌, ◌*◌, ◌+◌,
  ◌-◌, ◌==◌, ◌||◌, ◌⊎◌,
}
use edgelab.Grow.{
  Conditions, Flags, GrowError, GrowthRow, Report, Volume, already_complete, below_threshold,
  call_failed, cap_reached, dump_superblock, exceeds, filesystem_short, find_operation,
  find_pending, find_row, first_pending, grown, insert_new, insert_row, lv_short, mark, mark_done,
  mib, no_space, not_mounted, operation_conflict, other_pending, pending_over_cap, read_free,
  read_size, reread_size, round_up, statfs, stopped, would_shrink,
}
use edgelab.Shared.Action.{◌>>◌, ◌>>=◌, Action, gets, lift, modify, pure, stop_if}

-- What a step works on: it is over, or an operation is to be carried out.
pub data Selection : Type 0 where
  over : Report → Selection
  chosen : String → ℕ → Selection

module _ (uuid : String) (flags : Flags) (c : Conditions) where
  -- stop(stage): the process exits there if the flag says so.
  unfoldable pub stop_at : String → Action Volume GrowError (Unit {0})
  stop_at stage = stop_if (str_eq flags.crash_after stage) stopped

  -- The size that is asked for: by the flag, or for lack of one by the usage.
  unfoldable pub ask : ℕ → ℕ → Outcome GrowError (Option ℕ)
  ask current wanted =
      if wanted == 0
      then if c.fails statfs
        then err call_failed
        else if c.is_below_threshold
        then ok none
        else ok (some (round_up (current + 500 * mib)))
      else ok (some (round_up wanted))

  -- A new size is within its bounds, and leaves the reserve free.
  unfoldable pub admit_size : ℕ → ℕ → Outcome GrowError (Unit {0})
  admit_size current wanted =
      if ltb wanted current
      then err would_shrink
      else if ltb (flags.maximum * mib) wanted
      then err cap_reached
      else if c.fails read_free
      then err call_failed
      else if exceeds (wanted - current) flags.reserve c.free
      then err no_space
      else ok tt

  unfoldable pub name_of : String → String
  name_of id = if str_eq id "" then c.fresh_id else id

  -- A new operation is stored before anything is done.
  unfoldable pub begin_new : String → ℕ → ℕ → Action Volume GrowError Selection
  unfolding stop_at
  begin_new id current wanted = do
    lift (admit_size current wanted)
    stop_if (c.fails insert_row) call_failed
    rows ← gets (λ v. v.operations)
    rows' ← lift (
        expect call_failed (
          insert_new (record { id = name_of id; uuid = uuid; target = wanted; done = false }) rows))
    modify (λ v. record v { operations = rows' })
    stop_at "intent"
    pure (chosen (name_of id) wanted)

  unfoldable pub start_new : String → ℕ → Option ℕ → Action Volume GrowError Selection
  unfolding begin_new
  start_new id current none = pure (over below_threshold)
  start_new id current (some wanted) = begin_new id current wanted

  -- An operation that is not done comes first.
  unfoldable pub pursue : String → ℕ → ℕ → Option GrowthRow → Action Volume GrowError Selection
  unfolding start_new
  pursue id current wanted (some row) =
      if not (str_eq id "") && not (str_eq id row.id)
      then lift (err other_pending)
      else pure (chosen row.id row.target)
  pursue id current wanted none = do asked ← lift (ask current wanted); start_new id current asked

  -- The row of the operation that the flag names, if there is one.
  unfoldable pub named : Option GrowthRow → Outcome GrowError (ℕ ⊎ Report)
  named none = ok (inl (flags.target * mib))
  named (some row) =
      if not (str_eq row.uuid uuid)
        || (not (flags.target == 0) && not (row.target == flags.target * mib))
      then err operation_conflict
      else if row.done
      then ok (inr (already_complete row.id row.target))
      else ok (inl row.target)

  unfoldable pub select_pending : ℕ → ℕ ⊎ Report → Action Volume GrowError Selection
  unfolding pursue
  select_pending current (inr report) = pure (over report)
  select_pending current (inl wanted) = do
    stop_if (c.fails find_pending) call_failed
    rows ← gets (λ v. v.operations)
    pursue flags.operation current wanted (first_pending rows)

  -- What precedes the choice: the mount, the size, and the named operation's row.
  unfoldable pub read_named : Volume → Outcome GrowError (ℕ ⊎ Report)
  unfolding named
  read_named v =
      if not c.is_mounted
      then err not_mounted
      else if c.fails read_size
      then err call_failed
      else if str_eq flags.operation ""
      then named none
      else if c.fails find_operation
      then err call_failed
      else named (find_row flags.operation v.operations)

  unfoldable pub select : Action Volume GrowError Selection
  select = do v ← gets (λ v. v); found ← lift (read_named v); select_pending v.lv_bytes found

  unfoldable pub extend : ℕ → Action Volume GrowError (Unit {0})
  extend wanted = do
    v ← gets (λ v. v)
    size ← lift (
        if ltb v.lv_bytes wanted
        then expect call_failed (c.lvextend v.lv_bytes wanted)
        else ok v.lv_bytes)
    modify (λ v. record v { lv_bytes = size })

  unfoldable pub resize : ℕ → Action Volume GrowError (Unit {0})
  resize wanted = do
    v ← gets (λ v. v)
    size ← lift (expect call_failed (c.resize2fs v.lv_bytes v.filesystem_bytes))
    modify (λ v. record v { filesystem_bytes = size })

  -- An operation is marked done once both sizes have been read back.
  unfoldable pub settle : String → ℕ → Action Volume GrowError Report
  unfolding stop_at
  settle id wanted = do
    stop_if (c.fails reread_size) call_failed
    v ← gets (λ v. v)
    stop_if (ltb v.lv_bytes wanted) lv_short
    stop_if (c.fails dump_superblock) call_failed
    stop_if (ltb v.filesystem_bytes wanted) filesystem_short
    stop_if (c.fails mark_done) call_failed
    modify (λ v. record v { operations = mark id v.operations })
    stop_at "complete"
    pure (grown id wanted v.lv_bytes v.filesystem_bytes)

  unfoldable pub carry_out : String → ℕ → Action Volume GrowError Report
  unfolding extend resize stop_at settle
  carry_out id wanted = do
    stop_if (ltb (flags.maximum * mib) wanted) pending_over_cap
    extend wanted
    stop_at "lv"
    resize wanted
    stop_at "filesystem"
    settle id wanted

  unfoldable pub finish_step : Selection → Action Volume GrowError Report
  finish_step (over report) = pure report
  finish_step (chosen id wanted) = carry_out id wanted

  unfoldable pub step : Action Volume GrowError Report
  step = do selection ← select; finish_step selection
