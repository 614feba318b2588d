-- ===== src/Image/Layers/Loaded.antt =====
-- What an image's loaded layers are (cmd/worker/image.go, loadLayers).
use edgelab.Traffic.Counted.{total}
use edgelab.Shared.Action.{◌>>=◌}
use edgelab.Shared.Outcome.{ok, Outcome-cases}
use edgelab.Shared.Action.{bind_ok, relabel_ok, pure}
use edgelab.Shared.Table.{Table}
use edgelab.Shared.{
  List, Option-cases, String, [], arith, eq_iff, inl, inr, refl, some, str_append, subst, ℕ, ◌+◌,
  ◌∷◌, ◌≡◌, ◌≤◌, true, sym,
}
use edgelab.Image.Fetching.{IsBlob, fetch-IsBlob}
use edgelab.Shared.Paths.{HasNoRepeats}
use edgelab.Image.Archive.{Entry, Progress, admit_all, max_expanded, max_files, paths_of}
use edgelab.Image.Layers.{
  Decoding, admitting, fetch_blob, fetching, load_all, load_layer, open_layer, read_entries,
  ImageConfig, Manifest, is_config, is_manifest, load_config, load_layers, load_manifest,
}
use edgelab.Image.{Contents, Descriptor, Network, fetch}
use edgelab.Image.Archive.Admitted.{admit_all-IsAdmitted}
use edgelab.Image.Archive.Taken.{AreTaken, admit_all-AreTaken}
use edgelab.Image.Archive.Safe.{AreSafe, IsAdmitted, total_size}

module _ {Content : Type 0} (contents : Contents Content) (decoding : Decoding Content) where
  -- The entries come from a blob of the descriptor's size and hash, whose unpacked archive has the
  -- hash that the configuration gives: they are all that its headers give, in their order. They are
  -- safe, each named once.
  abbrev pub IsLayer : Descriptor → String → List (Entry Content) → Type 0
  IsLayer d diff_id entries =
      (blob : Content) × (plain : Content) × IsBlob contents d blob
      × (decoding.gunzip blob ≡ some plain)
      × (str_append "sha256:" (contents.digest plain) ≡ diff_id)
      × AreTaken (decoding.untar plain) entries
      × AreSafe contents entries
      × HasNoRepeats (paths_of entries)

  abbrev pub AreLayers : List Descriptor → List String → List (List (Entry Content)) → Type 0
  AreLayers [] ids [] = Unit
  AreLayers [] ids (layer ∷ layers) = ⊥
  AreLayers (d ∷ rest) [] layers = ⊥
  AreLayers (d ∷ rest) (diff_id ∷ ids) [] = ⊥
  AreLayers (d ∷ rest) (diff_id ∷ ids) (layer ∷ layers) =
      IsLayer d diff_id layer × AreLayers rest ids layers

  abbrev pub image_size : List (List (Entry Content)) → ℕ
  image_size [] = 0
  image_size (layer ∷ layers) = total_size contents layer + image_size layers

  module _ (net : Network Content) (crash_after : String) where
    fetch_blob_ok :
        (d : Descriptor) (cache : Table Content) (blob : Content)
        → (fetch_blob contents decoding net crash_after d cache).1 ≡ ok blob
        → IsBlob contents d blob
    unfolding fetch_blob
    fetch_blob_ok d cache blob h =
        fetch-IsBlob contents net d cache blob
          (relabel_ok fetching (fetch contents net d cache).1 blob h)

    open_layer_ok :
        (diff_id : String) (blob plain : Content)
        → open_layer contents decoding net crash_after diff_id blob ≡ ok plain
        → (decoding.gunzip blob ≡ some plain)
          × (str_append "sha256:" (contents.digest plain) ≡ diff_id)
    unfolding open_layer
    open_layer_ok diff_id blob plain h = elim (Option-cases (decoding.gunzip blob)) [
      | inl e ↦ absurd (ground arith)
      | inr (other, e) ↦ (
        ground arith,
        ground (arith, eq_iff (str_append "sha256:" (contents.digest other)) diff_id),
      )
    ]

    read_entries_ok :
        (count total : ℕ) (plain : Content) (p : Progress Content)
        → count ≤ max_files
        → total ≤ max_expanded
        → read_entries contents decoding net crash_after count total plain ≡ ok p
        → AreTaken (decoding.untar plain) p.entries × IsAdmitted contents total p
    unfolding read_entries
    read_entries_ok count total plain p few fits h =
        let start : Progress Content = record {
          count = count;
          total = total;
          seen = [];
          entries = [];
        } in
        let done = relabel_ok admitting (admit_all contents start (decoding.untar plain)) p h in
        let (es, all_taken, same) =
          admit_all-AreTaken contents start p (decoding.untar plain) done in
        (
          subst (AreTaken (decoding.untar plain)) (sym same) all_taken,
          admit_all-IsAdmitted contents total start p (decoding.untar plain)
              (record {
                safe = tt;
                seen = refl;
                distinct = tt;
                few = few;
                summed = omega arith;
                bounded = fits;
              })
              done,
        )

    load_layer_ok :
        (i count total : ℕ) (d : Descriptor) (diff_id : String) (cache : Table Content)
        (p : Progress Content)
        → count ≤ max_files
        → total ≤ max_expanded
        → (load_layer contents decoding net crash_after i count total d diff_id cache).1 ≡ ok p
        → IsLayer d diff_id p.entries × IsAdmitted contents total p
    unfolding load_layer
    load_layer_ok i count total d diff_id cache p few fits h =
        elim (Outcome-cases (fetch_blob contents decoding net crash_after d cache).1) [
          | inr (x, bad) ↦ absurd (ground arith)
          | inl (blob, fetched) ↦
              elim (Outcome-cases (open_layer contents decoding net crash_after diff_id blob)) [
                | inr (x, bad) ↦ absurd (ground arith)
                | inl (plain, opened) ↦
                    let (zipped, same) = open_layer_ok diff_id blob plain opened in
                    let (entries_taken, admitted) =
                      read_entries_ok count total plain p few fits (ground arith) in
                    (
                      (
                        blob,
                        plain,
                        fetch_blob_ok d cache blob fetched,
                        zipped,
                        same,
                        entries_taken,
                        admitted.safe,
                        subst HasNoRepeats admitted.seen admitted.distinct,
                      ),
                      admitted,
                    )
              ]
        ]

    load_all_ok :
        (i count total : ℕ) (ds : List Descriptor) (ids : List String) (cache : Table Content)
        (layers : List (List (Entry Content)))
        → count ≤ max_files
        → total ≤ max_expanded
        → (load_all contents decoding net crash_after i count total ds ids cache).1 ≡ ok layers
        → AreLayers ds ids layers × (total + image_size layers ≤ max_expanded)
    unfolding load_all
    load_all_ok i count total [] ids cache [] few fits h = (tt, omega arith)
    load_all_ok i count total [] ids cache (layer ∷ layers) few fits h = cc
    load_all_ok i count total (d ∷ rest) [] cache layers few fits h = cc
    load_all_ok i count total (d ∷ rest) (diff_id ∷ ids) cache layers few fits h =
        let load_rest = λ (p : Progress Content).
          load_all contents decoding net crash_after (i + 1) p.count p.total rest ids in
        let (p, loaded, more) =
          bind_ok (load_layer contents decoding net crash_after i count total d diff_id)
            (λ p. load_rest p >>= λ tail. pure (p.entries ∷ tail)) cache layers h in
        let (tail, others, done) =
          bind_ok (load_rest p) (λ tail. pure (p.entries ∷ tail))
            (load_layer contents decoding net crash_after i count total d diff_id cache).0 layers
            more in
        let (first, admitted) = load_layer_ok i count total d diff_id cache p few fits loaded in
        let (next, bounded) =
          load_all_ok (i + 1) p.count p.total rest ids
            (load_layer contents decoding net crash_after i count total d diff_id cache).0 tail
            admitted.few admitted.bounded others in
        let same : p.entries ∷ tail ≡ layers = ground arith in
        subst (λ l. AreLayers (d ∷ rest) (diff_id ∷ ids) l × (total + image_size l ≤ max_expanded))
          same ((first, next), omega (arith, admitted.summed))

    load_manifest_ok :
        (d : Descriptor) (cache : Table Content) (m : Manifest)
        → (load_manifest contents decoding net crash_after d cache).1 ≡ ok m
        → (blob : Content) × IsBlob contents d blob
          × (decoding.manifest blob ≡ some m)
          × (is_manifest m ≡ true)
    unfolding load_manifest
    load_manifest_ok d cache m h =
        elim (Outcome-cases (fetch_blob contents decoding net crash_after d cache).1) [
          | inr (x, bad) ↦ absurd (ground arith)
          | inl (blob, fetched) ↦ elim (Option-cases (decoding.manifest blob)) [
            | inl e ↦ absurd (ground arith)
            | inr (other, e) ↦
                (blob, fetch_blob_ok d cache blob fetched, ground arith, ground arith)
          ]
        ]

    load_config_ok :
        (m : Manifest) (cache : Table Content) (config : ImageConfig)
        → (load_config contents decoding net crash_after m cache).1 ≡ ok config
        → (blob : Content) × IsBlob contents m.config blob
          × (decoding.config blob ≡ some config)
          × (is_config m config ≡ true)
    unfolding load_config
    load_config_ok m cache config h =
        elim (Outcome-cases (fetch_blob contents decoding net crash_after m.config cache).1) [
          | inr (x, bad) ↦ absurd (ground arith)
          | inl (blob, fetched) ↦ elim (Option-cases (decoding.config blob)) [
            | inl e ↦ absurd (ground arith)
            | inr (other, e) ↦
                (blob, fetch_blob_ok m.config cache blob fetched, ground arith, ground arith)
          ]
        ]

    -- The manifest is the one asked for, the configuration is the manifest's, and the layers are the
    -- manifest's, unpacked to what the configuration says, of 64 MiB at most together.
    abbrev pub IsImage : Descriptor → Manifest → List (List (Entry Content)) → Type 0
    IsImage d m layers =
        ((blob : Content) × IsBlob contents d blob
          × (decoding.manifest blob ≡ some m)
          × (is_manifest m ≡ true))
        × ((config : ImageConfig) × ((blob : Content) × IsBlob contents m.config blob
              × (decoding.config blob ≡ some config)
              × (is_config m config ≡ true))
            × AreLayers m.layers config.diff_ids layers
            × (image_size layers ≤ max_expanded))

    -- When an image is loaded, from whatever cache and whatever the store answers, its manifest has
    -- the size and the hash asked for, its configuration and its layers those that the manifest gives,
    -- each unpacked layer has the hash that the configuration gives, its entries are those of its
    -- archive, in their order and without the root directory, stay below the root and are named once
    -- each, and all layers together hold 64 MiB at most.
    pub load_layers-IsImage :
        (d : Descriptor) (cache : Table Content) (m : Manifest)
        (layers : List (List (Entry Content)))
        → (load_layers contents decoding net crash_after d cache).1 ≡ ok (m, layers)
        → IsImage d m layers
    unfolding load_layers
    load_layers-IsImage d cache m layers h =
        let load_rest = λ (m : Manifest) (config : ImageConfig).
          load_all contents decoding net crash_after 0 0 0 m.layers config.diff_ids >>= λ layers.
          pure (m, layers) in
        let w = (load_manifest contents decoding net crash_after d cache).0 in
        let (n, loaded, rest) =
          bind_ok (load_manifest contents decoding net crash_after d)
            (λ m. load_config contents decoding net crash_after m >>= load_rest m) cache (m, layers)
            h in
        let w' = (load_config contents decoding net crash_after n w).0 in
        let (config, configured, rest') =
          bind_ok (load_config contents decoding net crash_after n) (load_rest n) w (m, layers)
            rest in
        let (ls, all, done) =
          bind_ok (load_all contents decoding net crash_after 0 0 0 n.layers config.diff_ids)
            (λ layers. pure (n, layers)) w' (m, layers) rest' in
        let same : (n, ls) ≡ (m, layers) = ground arith in
        let (are_layers, bounded) =
          load_all_ok 0 0 0 n.layers config.diff_ids w' ls (omega arith) (omega arith) all in
        subst (λ (x : Manifest × List (List (Entry Content))). IsImage d x.0 x.1) same
          (
            load_manifest_ok d cache n loaded,
            (config, load_config_ok n w config configured, are_layers, omega (arith, bounded)),
          )
