-- ===== src/Prepare/Owned.antt =====
-- What a run of the worker's main has checked before it changes anything (cmd/worker/main.go).

use edgelab.Image.Layers.{load_layers}
use edgelab.Image.Unpack.{FileError, Tree, apply_layers}
use edgelab.Image.Archive.{Entry}
use edgelab.Shared.Action.{
  Action, Preserves, Preserves-bind, Preserves-stop_if, gets, stop_if, ◌>>=◌, ◌>>◌,
}
use edgelab.Image.{max_blob, valid_digest}
use edgelab.Shared.Text.{matches_class}
use edgelab.Shared.Table.{lookup, lookup-insert}
use edgelab.Prepare.Steps.{
  base_name, extract_image, put_filesystem, put_tree, extract_layers, write_mark, marker_at,
  on_cache, on_tree, tree_at,
}
use edgelab.Shared.Pragmas.{is_durable_sound, is_text_iff}
use edgelab.Shared.Outcome.{Outcome-cases, ok}
use edgelab.Shared.{
  List, Option-cases, arith, inl, inr, refl, some, subst, true, ◌≡◌, ◌⊎◌, Bool-cases, String, ap,
  eq_iff, false, str_eq, ◌∙◌, ◌≤◌,
}
use edgelab.Storage.{Floats, LogicalVolume, Tools}
use edgelab.Prepare.{Setup, World, Filesystem, change_root, child_failed, write_marker}
use edgelab.Prepare.Rows.{KeepsRows}
use edgelab.Prepare.Kept.{prepare-KeepsRows}
use edgelab.Prepare.Worker.{setup_for, work, extract_alone, has_mount, prepare_alone}
use edgelab.Prepare.Start.{
  Arguments, Host, PoolFile, are_arguments, check_worker, open_intents, check_child, child_root,
  is_id_character, is_limit,
}

-- It is root on the pool's machine, with the pool's own device, and the arguments are within their
-- limits.
pub record IsOwned {Number : Type 0} (floats : Floats Number) (h : Host) (a : Arguments Number)
    (p : PoolFile) : Type 0 where
  pub by_root : h.is_root ≡ true
  pub rooted : a.root ≡ "/var/lib/edgelab-worker"
  pub digest : valid_digest a.image ≡ true
  pub not_empty : 1 ≤ a.size
  pub bounded : a.size ≤ max_blob
  pub named : matches_class is_id_character 1 64 a.id ≡ true
  pub data_room : is_limit floats 80 a.data_limit ≡ true
  pub metadata_room : is_limit floats 70 a.metadata_limit ≡ true
  pub trusted : h.is_trusted ≡ true
  pub stored : h.pool_file ≡ some p
  pub here : h.machine_id ≡ some p.machine
  pub backed : h.backing p.device ≡ some "/var/lib/edgelab-worker/disk"

-- It is no extraction child, and alone, with a durable database.
pub record IsAlone {Number : Type 0} (h : Host) (a : Arguments Number) : Type 0 where
  pub no_child : a.unpack_root ≡ ""
  pub alone : h.is_free ≡ true
  pub logged : h.journal ≡ some "wal"
  pub synchronised : h.synchronous ≡ some 2

-- A child for the mount of its own image has changed nothing but the cache and what is on that mount.
pub record HasExtracted {Content Number : Type 0} (x : Setup Content Number) (h : Host)
    (a : Arguments Number) (p : PoolFile) (w w' : World Content) : Type 0 where
  pub into : a.unpack_root ≡ child_root x.floats x.tools h a
  pub mounted : has_mount x h a p w ≡ true
  pub operations_kept : w'.operations ≡ w.operations
  pub volumes_kept : w'.volumes ≡ w.volumes
  pub mounts_kept : w'.mounts ≡ w.mounts
  pub formats_kept : w'.formats ≡ w.formats
  pub others_kept :
      (name : String)
      → str_eq name (base_name (setup_for x h a p)) ≡ false
      → lookup name w'.filesystems ≡ lookup name w.filesystems

module _ {Number : Type 0} (floats : Floats Number) (tools : Tools) (h : Host)
    (a : Arguments Number) where
  check_worker-IsOwned :
      (volumes : List LogicalVolume) (p : PoolFile)
      → check_worker floats tools h a volumes ≡ ok p
      → IsOwned floats h a p
  unfolding check_worker are_arguments
  check_worker-IsOwned volumes p checked = elim (Option-cases h.pool_file) [
    | inl missing ↦ absurd (ground arith)
    | inr (q, stored) ↦
        let same : q ≡ p = ground arith in
        subst (IsOwned floats h a) same (record {
          by_root = ground arith;
          rooted = (eq_iff a.root "/var/lib/edgelab-worker").0 (ground arith);
          digest = ground arith;
          not_empty = ground arith;
          bounded = ground arith;
          named = ground arith;
          data_room = ground arith;
          metadata_room = ground arith;
          trusted = ground arith;
          stored = stored;
          here = is_text_iff q.machine h.machine_id (ground arith);
          backed = is_text_iff "/var/lib/edgelab-worker/disk" (h.backing q.device) (ground arith);
        })
  ]

  open_intents-IsAlone : a.unpack_root ≡ "" → open_intents floats tools h ≡ ok tt → IsAlone h a
  unfolding open_intents
  open_intents-IsAlone plain opened =
      let (wal, full) = is_durable_sound h.journal h.synchronous (ground arith) in
      record { no_child = plain; alone = ground arith; logged = wal; synchronised = full }

module _ {Content Number : Type 0} (x : Setup Content Number) where
  extract_image_kept :
      (w : World Content)
      → let w' = (extract_image x w).0 in
        (w'.operations ≡ w.operations)
        × (w'.volumes ≡ w.volumes)
        × (w'.mounts ≡ w.mounts)
        × (w'.formats ≡ w.formats)
  unfolding extract_image extract_layers write_mark
  extract_image_kept w = (ground arith, ground arith, ground arith, ground arith)

  module _ (name : String) (other : str_eq name (base_name x) ≡ false) (start : World Content) where
    -- What is on another volume is as it was.
    abbrev IsElsewhere : World Content → Type 0
    IsElsewhere w = lookup name w.filesystems ≡ lookup name start.filesystems

    IsElsewhere-put_filesystem :
        (fs : Filesystem Content) (w : World Content)
        → IsElsewhere w
        → IsElsewhere (put_filesystem x fs w)
    unfolding put_filesystem
    IsElsewhere-put_filesystem fs w h = ground (
      arith,
      lookup-insert (base_name x) name fs w.filesystems,
      eq_iff name (base_name x),
      eq_iff (base_name x) name,
    )

    IsElsewhere-on_tree :
        {A : Type 0} (m : Action (Tree Content) FileError A) → Preserves IsElsewhere (on_tree x m)
    unfolding on_tree put_tree
    IsElsewhere-on_tree m w h =
        IsElsewhere-put_filesystem (record { tree = (m (tree_at x w)).0; marker = marker_at x w }) w
          h

    IsElsewhere-write_mark : (t : Tree Content) → Preserves IsElsewhere (write_mark x t)
    unfolding write_mark
    IsElsewhere-write_mark t w h = elim (Option-cases (x.conditions.tree_digest t)) [
      | inl missing ↦ ground arith
      | inr (hash, e) ↦
          let fs : Filesystem Content = record {
            tree = t;
            marker = some (x.request.image.digest, hash);
          } in
          elim (Bool-cases (x.conditions.fails write_marker)) [
            | inl failed ↦ ground arith
            | inr works ↦ ground (arith, IsElsewhere-put_filesystem fs w h)
          ]
    ]

    IsElsewhere-extract_layers :
        (layers : List (List (Entry Content))) → Preserves IsElsewhere (extract_layers x layers)
    unfolding extract_layers
    IsElsewhere-extract_layers layers =
        let fails = x.conditions.fails change_root in
        Preserves-bind IsElsewhere (stop_if fails child_failed)
          (λ u. on_tree x (apply_layers x.kernel layers) >> (gets (tree_at x) >>= write_mark x))
          (Preserves-stop_if IsElsewhere fails child_failed)
          (λ u.
            Preserves-bind IsElsewhere (on_tree x (apply_layers x.kernel layers))
              (λ u'. gets (tree_at x) >>= write_mark x)
              (IsElsewhere-on_tree (apply_layers x.kernel layers))
              (λ u' w h. IsElsewhere-write_mark (tree_at x w) w h))

    IsElsewhere-extract_image : Preserves IsElsewhere (extract_image x)
    unfolding extract_image on_cache
    IsElsewhere-extract_image =
        Preserves-bind IsElsewhere
          (on_cache x (λ e. child_failed)
            (load_layers x.contents x.decoding x.net x.conditions.crash_after x.request.image))
          (λ l. extract_layers x l.1) (λ w h. h) (λ l. IsElsewhere-extract_layers l.1)

module _ {Content Number : Type 0} (x : Setup Content Number) (h : Host)
    (a : Arguments Number) where
  extract_alone_guarded :
      (p : PoolFile) (w : World Content)
      → ((extract_alone x h a p w).0 ≡ w) ⊎ HasExtracted x h a p w (extract_alone x h a p w).0
  unfolding extract_alone check_child
  extract_alone_guarded p w =
      let same = eq_iff a.unpack_root (child_root x.floats x.tools h a) in
      elim (Outcome-cases (check_child x.floats x.tools h a (has_mount x h a p w))) [
        | inr (e, bad) ↦ inl (ground arith)
        | inl (u, checked) ↦
            let runs : (extract_alone x h a p w).0 ≡ (extract_image (setup_for x h a p) w).0 =
              ground arith in
            let (kept, volumes, mounts, formats) = extract_image_kept (setup_for x h a p) w in
            inr (record {
              into = same.0 (ground arith);
              mounted = ground arith;
              operations_kept = ap (λ v. v.operations) runs ∙ kept;
              volumes_kept = ap (λ v. v.volumes) runs ∙ volumes;
              mounts_kept = ap (λ v. v.mounts) runs ∙ mounts;
              formats_kept = ap (λ v. v.formats) runs ∙ formats;
              others_kept = λ name other.
                  ap (λ v. lookup name v.filesystems) runs
                  ∙ IsElsewhere-extract_image (setup_for x h a p) name other w w refl;
            })
      ]

  prepare_alone_guarded :
      (p : PoolFile) (w : World Content)
      → a.unpack_root ≡ ""
      → ((prepare_alone x h a p w).0 ≡ w)
        ⊎ (IsAlone h a × KeepsRows a.id w.operations (prepare_alone x h a p w).0.operations)
  unfolding prepare_alone setup_for
  prepare_alone_guarded p w plain = elim (Outcome-cases (open_intents x.floats x.tools h)) [
    | inr (e, bad) ↦ inl (rw bad refl)
    | inl (u, opened) ↦ inr (
      open_intents-IsAlone x.floats x.tools h a plain opened,
      rw opened (prepare-KeepsRows (setup_for x h a p) w),
    )
  ]

  -- A run leaves everything as it is, or it has checked that it is root on the pool's machine, with
  -- the pool's own device and arguments within their limits; and then either it is no extraction
  -- child, is alone, has a durable database, and no stored operation is lost, or changes its image,
  -- its size or its snapshot, and those of another identity change in nothing; or it is a child for
  -- the mount of its own image, which is mounted, and it changes no operation, volume, mount or
  -- format and no file elsewhere than on that mount, the cache apart.
  pub work_guarded :
      (w : World Content)
      → ((work x h a w).0 ≡ w)
        ⊎ ((p : PoolFile) × IsOwned x.floats h a p
            × ((IsAlone h a × KeepsRows a.id w.operations (work x h a w).0.operations)
                ⊎ HasExtracted x h a p w (work x h a w).0))
  unfolding work
  work_guarded w = elim (Outcome-cases (check_worker x.floats x.tools h a w.volumes)) [
    | inr (e, bad) ↦ inl (rw bad refl)
    | inl (p, checked) ↦
        let owned = check_worker-IsOwned x.floats x.tools h a w.volumes p checked in
        elim (Bool-cases (str_eq a.unpack_root "")) [
          | inl plain ↦
              let runs : work x h a w ≡ prepare_alone x h a p w = rw (checked, plain) refl in
              rw runs (elim (prepare_alone_guarded p w ((eq_iff a.unpack_root "").0 plain)) [
                | inl same ↦ inl same
                | inr kept ↦ inr (p, owned, inl kept)
              ])
          | inr child ↦
              let runs : work x h a w ≡ extract_alone x h a p w = rw (checked, child) refl in
              rw runs (elim (extract_alone_guarded p w) [
                | inl same ↦ inl same
                | inr extracted ↦ inr (p, owned, inr extracted)
              ])
        ]
  ]
