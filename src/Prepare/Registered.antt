-- ===== src/Prepare/Registered.antt =====
-- What a run that succeeds has stored (cmd/worker/main.go).
use edgelab.Image.Unpack.{written}
use edgelab.Prepare.Rows.{updated_row}
use edgelab.Prepare.Run.{carry_on, lay_out, noted, prepare, snapshot_name, snapshot_tag, verify}
use edgelab.Shared.Action.{after_bind, ◌>>=◌}
use edgelab.Shared.Table.{Table, lookup}
use edgelab.Shared.{
  String, ap, arith, false, refl, some, subst, sym, ◌∙◌, ◌≡◌, Bool-cases, Option-cases, inl, inr,
  leb, ◌||◌, eq_iff, true,
}
use edgelab.Shared.Outcome.{Outcome, err, ok}
use edgelab.Prepare.Kept.{Keeps-carry_on}
use edgelab.Image.{Descriptor}
use edgelab.Prepare.Steps.{begin, register_snapshot, take_snapshot, update}
use edgelab.Prepare.{
  OperationRow, PrepareError, Setup, World, is_row_of, registered, update_row, count_others,
  count_rows, insert_missing, insert_row, max_others, new_row, read_row,
}

is_row_of_ok :
    (image : Descriptor) (name : String) (row : OperationRow)
    → is_row_of image name row ≡ true
    → (row.image ≡ image.digest) × (row.size ≡ image.size) × (row.snapshot ≡ name)
unfolding is_row_of
is_row_of_ok image name row h = (
  ground (arith, eq_iff row.image image.digest),
  ground arith,
  ground (arith, eq_iff row.snapshot name),
)

module _ {Content Number : Type 0} (x : Setup Content Number) where
  -- The operation is stored with the image, the size and the snapshot that were asked for, as
  -- registered and without an error.
  abbrev pub IsRegistered : Table OperationRow → Type 0
  IsRegistered rows =
      (row : OperationRow) × (lookup x.request.id rows ≡ some row)
      × (row.image ≡ x.request.image.digest)
      × (row.size ≡ x.request.image.size)
      × (row.snapshot ≡ snapshot_name x)
      × (row.phase ≡ registered)
      × (row.has_error ≡ false)

  begin_ok :
      (w : World Content) (old_uuid : String)
      → (begin x (snapshot_name x) w).1 ≡ ok old_uuid
      → (row : OperationRow) × (lookup x.request.id (begin x (snapshot_name x) w).0.operations
          ≡ some row)
        × (row.image ≡ x.request.image.digest)
        × (row.size ≡ x.request.image.size)
        × (row.snapshot ≡ snapshot_name x)
  unfolding begin
  begin_ok w old_uuid h =
      let id = x.request.id in
      let rows = insert_missing id (new_row x.request.image (snapshot_name x)) w.operations in
      elim (Bool-cases (
        x.conditions.fails count_rows
        || leb max_others (count_others id w.operations)
        || x.conditions.fails insert_row
        || x.conditions.fails read_row)) [
          | inl early ↦ absurd (ground arith)
          | inr late ↦ elim (Option-cases (lookup id rows)) [
            | inl e ↦ absurd (ground arith)
            | inr (row, e) ↦ elim (Bool-cases (is_row_of x.request.image (snapshot_name x) row)) [
              | inr other ↦ absurd (ground arith)
              | inl ours ↦
                  let stored : (begin x (snapshot_name x) w).0.operations ≡ rows = ground arith in
                  let (image, size, name) =
                    is_row_of_ok x.request.image (snapshot_name x) row ours in
                  (row, ap (lookup id) stored ∙ e, image, size, name)
            ]
          ]
        ]

  -- The last write of a run.
  abbrev IsLastWrite : World Content × Outcome PrepareError (Unit {0}) → Type 0
  IsLastWrite r =
      r.1 ≡ ok tt
      → (uuid : String) × (rows : Table OperationRow) × (r.0.operations
          ≡ update_row (λ row. record row { phase = registered; uuid = uuid; has_error = false })
              x.request.id rows)

  IsLastWrite-register_snapshot :
      (uuid : String) (w : World Content) → IsLastWrite (register_snapshot x uuid w)
  unfolding register_snapshot update
  IsLastWrite-register_snapshot uuid w h = (uuid, w.operations, ground arith)

  IsLastWrite-carry_on :
      (old_uuid : String) (w : World Content) → IsLastWrite (carry_on x old_uuid w)
  unfolding carry_on
  IsLastWrite-carry_on old_uuid w =
      let snap = take_snapshot x (snapshot_name x) (snapshot_tag x) old_uuid in
      after_bind IsLastWrite (verify x >>= lay_out x)
        (λ u. snap >>= λ v. register_snapshot x v.uuid) w (λ e bad done. absurd (cc))
        (λ u good.
          let w' = ((verify x >>= lay_out x) w).0 in
          after_bind IsLastWrite snap (λ v. register_snapshot x v.uuid) w'
            (λ e bad done. absurd (cc))
            (λ v good'. IsLastWrite-register_snapshot v.uuid (snap w').0))

  noted_ok :
      (r : World Content × Outcome PrepareError (Unit {0})) → (noted x r).1 ≡ ok tt → noted x r ≡ r
  unfolding noted
  noted_ok (w, ok u) h = refl
  noted_ok (w, err e) h = cc

  IsRegistered-carry_on :
      (w : World Content) (old_uuid : String)
      → (begin x (snapshot_name x) w).1 ≡ ok old_uuid
      → (carry_on x old_uuid (begin x (snapshot_name x) w).0).1 ≡ ok tt
      → IsRegistered (carry_on x old_uuid (begin x (snapshot_name x) w).0).0.operations
  IsRegistered-carry_on w old_uuid begun done =
      let start = (begin x (snapshot_name x) w).0 in
      let (row, there, image, size, snap) = begin_ok w old_uuid begun in
      let (last, there', image', size', snap', other) =
        Keeps-carry_on x start.operations old_uuid start
          (λ k r known. (r, known, refl, refl, refl, λ d. refl)) x.request.id row there in
      let (uuid, rows, written) = IsLastWrite-carry_on old_uuid start done in
      let (old, e, same) =
        updated_row (λ r. record r { phase = registered; uuid = uuid; has_error = false })
          x.request.id rows last (sym (ap (lookup x.request.id) written) ∙ there') in
      (
        last,
        there',
        image' ∙ image,
        size' ∙ size,
        snap' ∙ snap,
        ap (λ (r : OperationRow). r.phase) same,
        ap (λ (r : OperationRow). r.has_error) same,
      )

  -- A run that succeeds has stored its operation as registered and without an error, with the image,
  -- the size and the snapshot that it was asked for.
  pub prepare-IsRegistered :
      (w : World Content) → (prepare x w).1 ≡ ok tt → IsRegistered (prepare x w).0.operations
  unfolding prepare
  prepare-IsRegistered w =
      after_bind (λ r. r.1 ≡ ok tt → IsRegistered r.0.operations) (begin x (snapshot_name x))
        (λ old_uuid w. noted x (carry_on x old_uuid w)) w (λ e bad done. absurd (cc))
        (λ old_uuid begun done.
          let same = noted_ok (carry_on x old_uuid (begin x (snapshot_name x) w).0) done in
          subst (λ r. IsRegistered r.0.operations) (sym same)
            (IsRegistered-carry_on w old_uuid begun (sym (ap (λ r. r.1) same) ∙ done)))
