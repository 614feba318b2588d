-- ===== src/Prepare/Formats.antt =====
-- Which volumes a run formats (cmd/worker/main.go): never a sealed one.

use edgelab.Registry.{snapshot}
use edgelab.Storage.Created.{create_ok}
use edgelab.Storage.Creation.{create}
use edgelab.Image.Archive.{max_expanded}
use edgelab.Prepare.Run.{
  ensure_image, carry_on, create_base, image_tag, lay_out, load, note_error, noted, prepare,
  snapshot_name, snapshot_tag, verify,
}
use edgelab.Prepare.Steps.{
  base_name, check_capacity, check_existing, check_mounted, format, on_mounts, rebuild,
  rebuild_unless, unpack, begin, fault_point, register_snapshot, seal_origin, stage, take_snapshot,
  extract_image, extract_layers, write_mark,
}
use edgelab.Prepare.{
  Setup, World, has_attribute, mkfs, Phase, PrepareError, sealed, storing, verified,
}
use edgelab.Shared.Outcome.{Outcome-cases, Outcome, err, ok}
use edgelab.Storage.{LogicalVolume, find_volume}
use edgelab.Shared.{
  Bool-cases, List, Option, [], arith, false, inl, inr, none, some, ◌∷◌, ◌≡◌, ◌⊎◌, String, ap, refl,
  str_eq, subst, sym, true, ◌∙◌,
}
use edgelab.Shared.Action.{◌>>=◌, ◌>>◌, Action, after_bind, Preserves, Preserves-bind, relabel_ok}

-- The volume is there, and is not read-only.
abbrev pub IsUnsealed : Option LogicalVolume → Type 0
IsUnsealed none = ⊥
IsUnsealed (some v) = has_attribute 1 b'r' v ≡ false

abbrev pub AreUnsealed : List (Option LogicalVolume) → Type 0
AreUnsealed [] = Unit
AreUnsealed (o ∷ rest) = IsUnsealed o × AreUnsealed rest

module _ {Content Number : Type 0} (x : Setup Content Number) where
  abbrev Formats : World Content → Type 0
  Formats w = AreUnsealed w.formats

  -- Until it is formatted, the volume is as it was when it was created or found.
  volumes-check_existing : (w : World Content) → (check_existing x w).0.volumes ≡ w.volumes
  unfolding check_existing check_mounted
  volumes-check_existing w = ground arith

  formats-check_existing : (w : World Content) → (check_existing x w).0.formats ≡ w.formats
  unfolding check_existing check_mounted
  formats-check_existing w = ground arith

  formats-rebuild :
      (origin : LogicalVolume) (w : World Content)
      → ((rebuild x origin w).0.formats ≡ w.formats)
        ⊎ ((has_attribute 1 b'r' origin ≡ false)
            × ((rebuild x origin w).0.formats ≡ find_volume (base_name x) w.volumes ∷ w.formats))
  unfolding rebuild format on_mounts unpack extract_image extract_layers write_mark
  formats-rebuild origin w = elim (Bool-cases (has_attribute 1 b'r' origin)) [
    | inl sealed_volume ↦ inl (ground arith)
    | inr open_one ↦ elim (Outcome-cases (check_capacity x max_expanded w).1) [
      | inr (e, bad) ↦ inl (ground arith)
      | inl (u, good) ↦ elim (Bool-cases (x.conditions.fails mkfs)) [
        | inl failed ↦ inl (ground arith)
        | inr works ↦ inr (open_one, ground arith)
      ]
    ]
  ]

  formats-ensure_image :
      (origin : LogicalVolume) (w : World Content)
      → ((ensure_image x origin w).0.formats ≡ w.formats)
        ⊎ ((ensure_image x origin w).0.formats
            ≡ (rebuild x origin (check_existing x w).0).0.formats)
  unfolding ensure_image rebuild_unless fault_point
  formats-ensure_image origin w =
      let same = formats-check_existing w in
      elim (Outcome-cases (check_existing x w).1) [
        | inr (e, bad) ↦ inl (ground (arith, same))
        | inl (true, e) ↦ inl (ground (arith, same))
        | inl (false, e) ↦ elim (Bool-cases (str_eq x.conditions.crash_after "lv")) [
          | inl crashed ↦ inl (ground arith)
          | inr goes_on ↦ inr (ground arith)
        ]
      ]

  Formats-ensure_image :
      (origin : LogicalVolume) (w : World Content)
      → find_volume (base_name x) w.volumes ≡ some origin
      → Formats w
      → Formats (ensure_image x origin w).0
  Formats-ensure_image origin w known h =
      let w' = (check_existing x w).0 in
      let before : AreUnsealed w'.formats = subst AreUnsealed (sym (formats-check_existing w)) h in
      let known' = ap (find_volume (base_name x)) (volumes-check_existing w) ∙ known in
      elim (formats-ensure_image origin w) [
        | inl same ↦ subst AreUnsealed (sym same) h
        | inr rebuilt ↦ subst AreUnsealed (sym rebuilt) (elim (formats-rebuild origin w') [
          | inl same ↦ subst AreUnsealed (sym same) before
          | inr (unsealed, more) ↦
              subst AreUnsealed (sym more) (subst IsUnsealed (sym known') unsealed, before)
        ])
      ]

  Formats-unchanged :
      {A : Type 0} (m : Action (World Content) PrepareError A)
      → ((w : World Content) → (m w).0.formats ≡ w.formats)
      → Preserves Formats m
  Formats-unchanged m same w h = subst AreUnsealed (sym (same w)) h

  formats-begin :
      (snapshot : String) (w : World Content) → (begin x snapshot w).0.formats ≡ w.formats
  unfolding begin
  formats-begin snapshot w = ground arith

  formats-load : (w : World Content) → (load x w).0.formats ≡ w.formats
  unfolding load
  formats-load w = ground arith

  formats-stage :
      (point : String) (phase : Phase) (w : World Content)
      → (stage x point phase w).0.formats ≡ w.formats
  unfolding stage
  formats-stage point phase w = ground arith

  formats-seal_origin : (w : World Content) → (seal_origin x w).0.formats ≡ w.formats
  unfolding seal_origin
  formats-seal_origin w = ground arith

  formats-take_snapshot :
      (name tag old_uuid : String) (w : World Content)
      → (take_snapshot x name tag old_uuid w).0.formats ≡ w.formats
  unfolding take_snapshot
  formats-take_snapshot name tag old_uuid w = ground arith

  formats-register_snapshot :
      (uuid : String) (w : World Content) → (register_snapshot x uuid w).0.formats ≡ w.formats
  unfolding register_snapshot
  formats-register_snapshot uuid w = ground arith

  formats-noted :
      {A : Type 0} (r : World Content × Outcome PrepareError A)
      → (noted x r).0.formats ≡ r.0.formats
  unfolding noted note_error
  formats-noted (w, ok a) = refl
  formats-noted (w, err e) = ground arith

  Formats-verify : Preserves Formats (verify x)
  unfolding verify create_base
  Formats-verify =
      Preserves-bind Formats (load x) (λ u. stage x "verified" verified >> create_base x)
        (Formats-unchanged (load x) formats-load)
        (λ u.
          Preserves-bind Formats (stage x "verified" verified) (λ u'. create_base x)
            (Formats-unchanged (stage x "verified" verified) (formats-stage "verified" verified))
            (λ u'. Formats-unchanged (create_base x) (λ w. refl)))

  create_base_ok :
      (w : World Content) (origin : LogicalVolume)
      → (create_base x w).1 ≡ ok origin
      → find_volume (base_name x) (create_base x w).0.volumes ≡ some origin
  unfolding create_base
  create_base_ok w origin h =
      let made = create x.floats x.limits x.tools (base_name x) (image_tag x) "" w.volumes in
      (create_ok x.floats x.limits x.tools (base_name x) (image_tag x) "" w.volumes origin
        (relabel_ok (λ e. storing) made.1 origin h)).0

  verify_ok :
      (w : World Content) (origin : LogicalVolume)
      → (verify x w).1 ≡ ok origin
      → find_volume (base_name x) (verify x w).0.volumes ≡ some origin
  unfolding verify
  verify_ok w origin =
      after_bind (λ r. r.1 ≡ ok origin → find_volume (base_name x) r.0.volumes ≡ some origin)
        (load x) (λ u. stage x "verified" verified >> create_base x) w (λ e h bad. absurd (cc))
        (λ u h.
          after_bind (λ r. r.1 ≡ ok origin → find_volume (base_name x) r.0.volumes ≡ some origin)
            (stage x "verified" verified) (λ u'. create_base x) (load x w).0
            (λ e h' bad. absurd (cc))
            (λ u' h'. create_base_ok (stage x "verified" verified (load x w).0).0 origin))

  Formats-lay_out :
      (origin : LogicalVolume) (w : World Content)
      → find_volume (base_name x) w.volumes ≡ some origin
      → Formats w
      → Formats (lay_out x origin w).0
  unfolding lay_out
  Formats-lay_out origin w known h =
      let ensured = Formats-ensure_image origin w known h in
      after_bind (λ r. Formats r.0) (ensure_image x origin)
        (λ u. seal_origin x >> stage x "sealed" sealed) w (λ e bad. ensured)
        (λ u good.
          (Preserves-bind Formats (seal_origin x) (λ u'. stage x "sealed" sealed)
              (Formats-unchanged (seal_origin x) formats-seal_origin)
              (λ u'. Formats-unchanged (stage x "sealed" sealed) (formats-stage "sealed" sealed)))
            (ensure_image x origin w).0 ensured)

  Formats-carry_on : (old_uuid : String) → Preserves Formats (carry_on x old_uuid)
  unfolding carry_on
  Formats-carry_on old_uuid =
      let snap = take_snapshot x (snapshot_name x) (snapshot_tag x) old_uuid in
      Preserves-bind Formats (verify x >>= lay_out x)
        (λ u. snap >>= λ v. register_snapshot x v.uuid)
        (λ w h.
          after_bind (λ r. Formats r.0) (verify x) (lay_out x) w (λ e bad. Formats-verify w h)
            (λ origin good.
              Formats-lay_out origin (verify x w).0 (verify_ok w origin good) (Formats-verify w h)))
        (λ u.
          Preserves-bind Formats snap (λ v. register_snapshot x v.uuid)
            (Formats-unchanged snap
              (formats-take_snapshot (snapshot_name x) (snapshot_tag x) old_uuid))
            (λ v.
              Formats-unchanged (register_snapshot x v.uuid) (formats-register_snapshot v.uuid)))

  -- Whatever fails in a run and wherever it is interrupted, no volume is formatted but one that the
  -- group has under its name at that moment and that is not read-only, if that holds of the formats
  -- before it: a sealed image stays.
  pub prepare-AreUnsealed :
      (w : World Content) → AreUnsealed w.formats → AreUnsealed (prepare x w).0.formats
  unfolding prepare
  prepare-AreUnsealed w h =
      let begun =
        Formats-unchanged (begin x (snapshot_name x)) (formats-begin (snapshot_name x)) w h in
      after_bind (λ r. Formats r.0) (begin x (snapshot_name x))
        (λ old_uuid w. noted x (carry_on x old_uuid w)) w (λ e bad. begun)
        (λ old_uuid good.
          let w' = (begin x (snapshot_name x) w).0 in
          subst AreUnsealed (sym (formats-noted (carry_on x old_uuid w')))
            (Formats-carry_on old_uuid w' begun))
