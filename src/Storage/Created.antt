-- ===== src/Storage/Created.antt =====
-- What the creation of a thin volume promises (cmd/worker/storage.go).

use edgelab.Storage.Creation.{create, create_if_absent, create_new}
use edgelab.Shared.Outcome.{Outcome-cases, err, ok}
use edgelab.Storage.{
  Floats, Limits, LogicalVolume, StorageError, Tools, capacity, creation_reserve, find_volume,
  found_valid, has_size, inspect, is_ours, lvcreate, lvs, tool_failed, validate, within_limits,
}
use edgelab.Shared.{
  Bool-cases, List, Option-cases, String, [], ap, arith, eq_iff, inl, inr, none, some, subst, sym,
  true, ◌∙◌, ◌∷◌, ◌≡◌, ◌⊎◌, false,
}

find_volume_name :
    (name : String) (volumes : List LogicalVolume) (v : LogicalVolume)
    → find_volume name volumes ≡ some v
    → v.name ≡ name
unfolding find_volume
find_volume_name name [] v h = cc
find_volume_name name (first ∷ rest) v h =
    ground (arith, find_volume_name name rest v, eq_iff first.name name)

module _ {Number : Type 0} (floats : Floats Number) (limits : Limits Number) (tools : Tools) where
  -- The volume of the group under the name: with both tags, in the pool, of the origin and of the
  -- size of every image.
  abbrev pub IsVolume : String → String → String → List LogicalVolume → LogicalVolume → Type 0
  IsVolume name tag origin volumes v =
      (find_volume name volumes ≡ some v)
      × (v.name ≡ name)
      × (is_ours floats limits tools v tag origin ≡ true)
      × (has_size floats limits tools (floats.parse v.size) ≡ true)

  -- The pool is there and the configured one; its percentages and its size can be read, and 64 MiB
  -- more of its data, and 5 more percent of its metadata, are below both limits.
  pub record HasRoom (volumes : List LogicalVolume) : Type 0 where
    pub pool : LogicalVolume
    pub used : Number
    pub metadata : Number
    pub size : Number
    pub there : find_volume "pool" volumes ≡ some pool
    pub configured : pool.uuid ≡ limits.pool_uuid
    pub reads_used : floats.parse pool.data_percent ≡ some used
    pub reads_metadata : floats.parse pool.metadata_percent ≡ some metadata
    pub reads_size : floats.parse pool.size ≡ some size
    pub below_data :
        floats.ge
          (floats.add used
            (floats.div (floats.mul (floats.of_nat 100) (floats.of_nat 67108864)) size))
          limits.data_limit
        ≡ false
    pub below_metadata :
        floats.ge (floats.add metadata (floats.of_nat 5)) limits.metadata_limit ≡ false

  capacity-HasRoom :
      (volumes : List LogicalVolume)
      → capacity floats limits tools creation_reserve volumes ≡ ok tt
      → HasRoom volumes
  unfolding capacity inspect within_limits
  capacity-HasRoom volumes h = elim (Option-cases (find_volume "pool" volumes)) [
    | inl e ↦ absurd (ground arith)
    | inr (pool, e) ↦ elim (Option-cases (floats.parse pool.data_percent)) [
      | inl e₁ ↦ absurd (ground arith)
      | inr (used, e₁) ↦ elim (Option-cases (floats.parse pool.metadata_percent)) [
        | inl e₂ ↦ absurd (ground arith)
        | inr (metadata, e₂) ↦ elim (Option-cases (floats.parse pool.size)) [
          | inl e₃ ↦ absurd (ground arith)
          | inr (size, e₃) ↦ record {
            pool = pool;
            used = used;
            metadata = metadata;
            size = size;
            there = e;
            configured = ground (arith, eq_iff pool.uuid limits.pool_uuid);
            reads_used = e₁;
            reads_metadata = e₂;
            reads_size = e₃;
            below_data = ground arith;
            below_metadata = ground arith;
          }
        ]
      ]
    ]
  ]

  found_valid_ok :
      (name tag origin : String) (volumes : List LogicalVolume) (v : LogicalVolume)
      → found_valid floats limits tools tag origin (inspect floats limits tools name volumes) ≡ ok v
      → IsVolume name tag origin volumes v
  unfolding found_valid inspect validate
  found_valid_ok name tag origin volumes v h = elim (Option-cases (find_volume name volumes)) [
    | inl e ↦ absurd (ground arith)
    | inr (w, e) ↦
        let same : w ≡ v = ground arith in
        let known : find_volume name volumes ≡ some v = rw (← same) e in
        (known, find_volume_name name volumes v known, ground arith, ground arith)
  ]

  create_cases :
      (name tag origin : String) (volumes : List LogicalVolume)
      → (create floats limits tools name tag origin volumes ≡ (
        volumes,
        found_valid floats limits tools tag origin (inspect floats limits tools name volumes),
      ))
        ⊎ ((find_volume name volumes ≡ none)
            × (create floats limits tools name tag origin volumes
                ≡ create_new floats limits tools name tag origin volumes))
  unfolding create create_if_absent inspect found_valid
  create_cases name tag origin volumes = elim (Bool-cases (tools.fails lvs)) [
    | inl failed ↦ inl (ground arith)
    | inr works ↦ elim (Option-cases (find_volume name volumes)) [
      | inr (v, e) ↦ inl (ground arith)
      | inl e ↦ inr (e, ground arith)
    ]
  ]

  create_new_cases :
      (name tag origin : String) (volumes : List LogicalVolume)
      → ((create_new floats limits tools name tag origin volumes).0 ≡ volumes
          × ((e : StorageError) × ((create_new floats limits tools name tag origin volumes).1
                ≡ err e)))
        ⊎ (HasRoom volumes
            × (create_new floats limits tools name tag origin volumes ≡ (
              tools.created name tag origin volumes,
              found_valid floats limits tools tag origin
                  (inspect floats limits tools name (tools.created name tag origin volumes)),
            )))
  unfolding create_new
  create_new_cases name tag origin volumes =
      elim (Outcome-cases (capacity floats limits tools creation_reserve volumes)) [
        | inr (e, bad) ↦ inl (ground arith, (e, ground arith))
        | inl (u, room) ↦ elim (Bool-cases (tools.fails lvcreate)) [
          | inl failed ↦ inl (ground arith, (tool_failed, ground arith))
          | inr works ↦ inr (capacity-HasRoom volumes (ground arith), ground arith)
        ]
      ]

  -- When a creation succeeds, the group has the volume that it returns under the name, with its tags,
  -- in the pool, of the given origin and of the size of an image: it may have been there before.
  pub create_ok :
      (name tag origin : String) (volumes : List LogicalVolume) (v : LogicalVolume)
      → (create floats limits tools name tag origin volumes).1 ≡ ok v
      → IsVolume name tag origin (create floats limits tools name tag origin volumes).0 v
  create_ok name tag origin volumes v h = elim (create_cases name tag origin volumes) [
    | inl e ↦
        subst (λ r. IsVolume name tag origin r.0 v) (sym e)
          (found_valid_ok name tag origin volumes v (sym (ap (λ r. r.1) e) ∙ h))
    | inr (new, e) ↦ elim (create_new_cases name tag origin volumes) [
      | inl (kept, (x, bad)) ↦ absurd (ground arith)
      | inr (room, e') ↦
          subst (λ r. IsVolume name tag origin r.0 v) (sym (e ∙ e'))
            (found_valid_ok name tag origin (tools.created name tag origin volumes) v
              (sym (ap (λ r. r.1) (e ∙ e')) ∙ h))
    ]
  ]

  -- The group changes only where no volume has the name, the pool is the configured one, and 64 MiB
  -- more of data and 5 percent more of metadata are below its limits; and then as lvcreate changes it,
  -- once.
  pub create_guarded :
      (name tag origin : String) (volumes : List LogicalVolume)
      → ((create floats limits tools name tag origin volumes).0 ≡ volumes)
        ⊎ ((find_volume name volumes ≡ none)
            × HasRoom volumes
            × ((create floats limits tools name tag origin volumes).0
                ≡ tools.created name tag origin volumes))
  create_guarded name tag origin volumes = elim (create_cases name tag origin volumes) [
    | inl e ↦ inl (ap (λ r. r.0) e)
    | inr (new, e) ↦ elim (create_new_cases name tag origin volumes) [
      | inl (kept, failed) ↦ inl (ap (λ r. r.0) e ∙ kept)
      | inr (room, e') ↦ inr (new, room, ap (λ r. r.0) (e ∙ e'))
    ]
  ]
