-- ===== src/Prepare/Kept.antt =====
-- The stored operations through a run (cmd/worker/main.go): none is lost, and none changes what was
-- asked for.

use edgelab.Prepare.Rows.{KeepsRows, KeepsRows-insert_missing, KeepsRows-update_row}
use edgelab.Prepare.Run.{
  carry_on, lay_out, note_error, noted, snapshot_name, snapshot_tag, verify, create_base,
  ensure_image, load, prepare,
}
use edgelab.Shared.Outcome.{Outcome, err, ok}
use edgelab.Registry.{snapshot}
use edgelab.Prepare.Steps.{
  check_capacity, check_existing, check_mounted, format, inspect_volume, on_mounts, rebuild,
  take_snapshot, unpack, update, begin, register_snapshot, stage, rebuild_unless, seal_origin,
  extract_image, extract_layers, write_mark,
}
use edgelab.Shared.Table.{Table}
use edgelab.Prepare.{
  OperationRow, Setup, World, insert_missing, Phase, PrepareError, is_interruption, registered,
  save_error, save_phase, save_registration, count_others, count_rows, insert_row, max_others,
  new_row, sealed, verified,
}
use edgelab.Storage.{LogicalVolume, StorageError}
use edgelab.Shared.{
  Bool-cases, String, arith, false, inl, inr, refl, ℕ, ◌≡◌, subst, sym, true, ◌||◌, leb,
}
use edgelab.Shared.Action.{◌>>=◌, ◌>>◌, Action, Preserves, Preserves-bind, after_bind}

module _ {Content Number : Type 0} (x : Setup Content Number) where
  operations-check_capacity :
      (n : ℕ) (w : World Content) → (check_capacity x n w).0.operations ≡ w.operations
  unfolding check_capacity
  operations-check_capacity n w = refl

  operations-check_existing : (w : World Content) → (check_existing x w).0.operations ≡ w.operations
  unfolding check_existing check_mounted
  operations-check_existing w = ground arith

  operations-unpack : (w : World Content) → (unpack x w).0.operations ≡ w.operations
  unfolding unpack extract_image extract_layers write_mark
  operations-unpack w = ground arith

  operations-format : (w : World Content) → (format x w).0.operations ≡ w.operations
  unfolding format
  operations-format w = ground arith

  operations-on_mounts :
      {A : Type 0} (m : Action (Table String) StorageError A) (w : World Content)
      → (on_mounts x m w).0.operations ≡ w.operations
  unfolding on_mounts
  operations-on_mounts m w = refl

  operations-rebuild :
      (origin : LogicalVolume) (w : World Content)
      → (rebuild x origin w).0.operations ≡ w.operations
  unfolding rebuild format on_mounts unpack extract_image extract_layers write_mark
  operations-rebuild origin w = ground arith

  operations-inspect_volume :
      (name : String) (n : ℕ) (w : World Content)
      → (inspect_volume x name n w).0.operations ≡ w.operations
  unfolding inspect_volume
  operations-inspect_volume name n w = ground arith

  operations-take_snapshot :
      (name tag old_uuid : String) (w : World Content)
      → (take_snapshot x name tag old_uuid w).0.operations ≡ w.operations
  unfolding take_snapshot
  operations-take_snapshot name tag old_uuid w = ground arith

  -- The operations are as `start` says.
  abbrev pub Keeps : Table OperationRow → World Content → Type 0
  Keeps start w = KeepsRows x.request.id start w.operations

  Keeps-stage :
      (start : Table OperationRow) (point : String) (phase : Phase)
      → Preserves (Keeps start) (stage x point phase)
  unfolding stage update
  Keeps-stage start point phase w h =
      let f = λ (row : OperationRow). record row { phase = phase; has_error = false } in
      let kept =
        KeepsRows-update_row f x.request.id start w.operations (λ row. (refl, refl, refl)) h in
      elim (Bool-cases (x.conditions.fails save_phase)) [
        | inl failed ↦ subst (KeepsRows x.request.id start) (ground arith) h
        | inr works ↦ subst (KeepsRows x.request.id start) (ground arith) kept
      ]

  Keeps-register_snapshot :
      (start : Table OperationRow) (uuid : String)
      → Preserves (Keeps start) (register_snapshot x uuid)
  unfolding register_snapshot update
  Keeps-register_snapshot start uuid w h =
      let f =
        λ (row : OperationRow). record row { phase = registered; uuid = uuid; has_error = false } in
      let kept =
        KeepsRows-update_row f x.request.id start w.operations (λ row. (refl, refl, refl)) h in
      elim (Bool-cases (x.conditions.fails save_registration)) [
        | inl failed ↦ subst (KeepsRows x.request.id start) (ground arith) h
        | inr works ↦ subst (KeepsRows x.request.id start) (ground arith) kept
      ]

  Keeps-noted :
      {A : Type 0} (start : Table OperationRow) (r : World Content × Outcome PrepareError A)
      → Keeps start r.0
      → Keeps start (noted x r).0
  unfolding noted note_error
  Keeps-noted start (w, ok a) h = h
  Keeps-noted start (w, err e) h =
      let f = λ (row : OperationRow). record row { has_error = true } in
      let kept =
        KeepsRows-update_row f x.request.id start w.operations (λ row. (refl, refl, refl)) h in
      elim (Bool-cases (is_interruption e || x.conditions.fails save_error)) [
        | inl not_noted ↦ subst (KeepsRows x.request.id start) (ground arith) h
        | inr is_noted ↦ subst (KeepsRows x.request.id start) (ground arith) kept
      ]

  -- A step that leaves the operations alone.
  Preserves-unchanged :
      {A : Type 0} (start : Table OperationRow) (m : Action (World Content) PrepareError A)
      → ((w : World Content) → (m w).0.operations ≡ w.operations)
      → Preserves (Keeps start) m
  Preserves-unchanged start m same w h = subst (KeepsRows x.request.id start) (sym (same w)) h

  operations-load : (w : World Content) → (load x w).0.operations ≡ w.operations
  unfolding load
  operations-load w = ground arith

  operations-ensure_image :
      (origin : LogicalVolume) (w : World Content)
      → (ensure_image x origin w).0.operations ≡ w.operations
  unfolding ensure_image rebuild_unless
  operations-ensure_image origin w =
      let w' = (check_existing x w).0 in
      ground (arith, operations-check_existing w, operations-rebuild origin w')

  operations-seal_origin : (w : World Content) → (seal_origin x w).0.operations ≡ w.operations
  unfolding seal_origin
  operations-seal_origin w = ground arith

  Keeps-verify : (start : Table OperationRow) → Preserves (Keeps start) (verify x)
  unfolding verify create_base
  Keeps-verify start =
      Preserves-bind (Keeps start) (load x) (λ u. stage x "verified" verified >> create_base x)
        (Preserves-unchanged start (load x) operations-load)
        (λ u.
          Preserves-bind (Keeps start) (stage x "verified" verified) (λ u'. create_base x)
            (Keeps-stage start "verified" verified)
            (λ u'. Preserves-unchanged start (create_base x) (λ w. refl)))

  Keeps-lay_out :
      (start : Table OperationRow) (origin : LogicalVolume)
      → Preserves (Keeps start) (lay_out x origin)
  unfolding lay_out
  Keeps-lay_out start origin =
      Preserves-bind (Keeps start) (ensure_image x origin)
        (λ u. seal_origin x >> stage x "sealed" sealed)
        (Preserves-unchanged start (ensure_image x origin) (operations-ensure_image origin))
        (λ u.
          Preserves-bind (Keeps start) (seal_origin x) (λ u'. stage x "sealed" sealed)
            (Preserves-unchanged start (seal_origin x) operations-seal_origin)
            (λ u'. Keeps-stage start "sealed" sealed))

  pub Keeps-begin :
      (snapshot : String) (w : World Content) → Keeps w.operations (begin x snapshot w).0
  unfolding begin
  Keeps-begin snapshot w =
      let id = x.request.id in
      elim (Bool-cases (
        x.conditions.fails count_rows
        || leb max_others (count_others id w.operations)
        || x.conditions.fails insert_row)) [
          | inl early ↦
              let same : w.operations ≡ (begin x snapshot w).0.operations = ground arith in
              subst (KeepsRows id w.operations) same
                (λ k row known. (row, known, refl, refl, refl, λ d. refl))
          | inr late ↦
              let written : insert_missing id (new_row x.request.image snapshot) w.operations
                  ≡ (begin x snapshot w).0.operations =
                ground arith in
              subst (KeepsRows id w.operations) written
                (KeepsRows-insert_missing id (new_row x.request.image snapshot) w.operations)
        ]

  pub Keeps-carry_on :
      (start : Table OperationRow) (old_uuid : String)
      → Preserves (Keeps start) (carry_on x old_uuid)
  unfolding carry_on
  Keeps-carry_on start old_uuid =
      Preserves-bind (Keeps start) (verify x >>= lay_out x)
        (λ u. take_snapshot x (snapshot_name x) (snapshot_tag x) old_uuid >>= λ snap.
          register_snapshot x snap.uuid)
        (Preserves-bind (Keeps start) (verify x) (lay_out x) (Keeps-verify start)
          (Keeps-lay_out start))
        (λ u.
          Preserves-bind (Keeps start) (take_snapshot x (snapshot_name x) (snapshot_tag x) old_uuid)
            (λ snap. register_snapshot x snap.uuid)
            (Preserves-unchanged start (take_snapshot x (snapshot_name x) (snapshot_tag x) old_uuid)
              (operations-take_snapshot (snapshot_name x) (snapshot_tag x) old_uuid))
            (λ snap. Keeps-register_snapshot start snap.uuid))

  -- Whatever fails in a run and wherever it is interrupted, every stored operation is still there and
  -- keeps its image, its size and its snapshot, and those of other operations keep all else too.
  pub prepare-KeepsRows :
      (w : World Content) → KeepsRows x.request.id w.operations (prepare x w).0.operations
  unfolding prepare
  prepare-KeepsRows w =
      after_bind (λ r. KeepsRows x.request.id w.operations r.0.operations)
        (begin x (snapshot_name x)) (λ old_uuid w. noted x (carry_on x old_uuid w)) w
        (λ e h. Keeps-begin (snapshot_name x) w)
        (λ old_uuid h.
          Keeps-noted w.operations (carry_on x old_uuid (begin x (snapshot_name x) w).0) (
            Keeps-carry_on w.operations old_uuid (begin x (snapshot_name x) w).0
              (Keeps-begin (snapshot_name x) w)))
