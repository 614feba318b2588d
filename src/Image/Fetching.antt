-- ===== src/Image/Fetching.antt =====
-- What a fetched blob is, and what the cache keeps (cmd/worker/image.go).
use edgelab.Shared.Text.{trim_prefix}
use edgelab.Shared.Table.{Table, insert}
use edgelab.Shared.Outcome.{Outcome-cases, ok}
use edgelab.Image.{
  Contents, Descriptor, Network, Response, accept_response, cached_bytes, download, durable_file,
  fetch, max_blob, max_cache, read_cache, read_file, rename, take_cached, valid_digest,
  write_pending,
}
use edgelab.Shared.{
  Bool-cases, Option, Option-cases, String, [], arith, eq_iff, inl, inr, ltb, none, not, some,
  str_append, subst, sym, ◌+◌, ◌||◌, ◌∙◌, ◌∷◌, ◌≡◌, ◌≤◌, ◌⊎◌,
}

module _ {Content : Type 0} (contents : Contents Content) where
  -- The content has the size and the hash of the descriptor.
  abbrev pub IsBlob : Descriptor → Content → Type 0
  IsBlob d content =
      (contents.size content ≡ d.size) × (contents.digest content ≡ trim_prefix d.digest "sha256:")

  module _ (net : Network Content) where
    cached_bytes-insert :
        (id : String) (content : Content) (cache : Table Content)
        → cached_bytes contents net (insert id content cache)
          ≤ cached_bytes contents net cache + contents.size content
    unfolding cached_bytes insert
    cached_bytes-insert id content [] = ground arith
    cached_bytes-insert id content ((name, held) ∷ rest) =
        ground (arith, cached_bytes-insert id content rest)

    accept_response_ok :
        (d : Descriptor) (id : String) (o : Option (Response Content)) (content : Content)
        → accept_response contents net d id o ≡ ok content
        → (contents.size content ≡ d.size) × (contents.digest content ≡ id)
    unfolding accept_response
    accept_response_ok d id none content h = cc
    accept_response_ok d id (some r) content h = (
      ground arith,
      ground (arith, eq_iff (contents.digest (contents.limit (d.size + 1) r.body)) id),
    )

    -- A download leaves the cache, or saves the blob where there is room for it.
    download_cases :
        (d : Descriptor) (id : String) (cache : Table Content)
        → ((download contents net d id cache).0 ≡ cache)
          ⊎ ((content : Content) × (contents.size content ≡ d.size)
              × (contents.digest content ≡ id)
              × (cached_bytes contents net cache + d.size ≤ max_cache)
              × ((download contents net d id cache).0 ≡ insert id content cache))
    unfolding download durable_file
    download_cases d id cache =
        elim (Outcome-cases
          (accept_response contents net d id (net.get (str_append "/blobs/sha256/" id)))) [
            | inr (e, bad) ↦ inl (ground arith)
            | inl (content, good) ↦
                let (size, hash) = accept_response_ok d id _ content good in
                elim (Bool-cases (
                  net.fails read_cache
                  || ltb max_cache (cached_bytes contents net cache + d.size)
                  || net.fails write_pending
                  || net.fails rename)) [
                    | inl failed ↦ inl (ground arith)
                    | inr passed ↦ inr (content, size, hash, ground arith, ground arith)
                  ]
          ]

    download_ok :
        (d : Descriptor) (id : String) (cache : Table Content) (content : Content)
        → (download contents net d id cache).1 ≡ ok content
        → (contents.size content ≡ d.size) × (contents.digest content ≡ id)
    unfolding download durable_file
    download_ok d id cache content h =
        elim (Outcome-cases
          (accept_response contents net d id (net.get (str_append "/blobs/sha256/" id)))) [
            | inr (e, bad) ↦ absurd (ground arith)
            | inl (other, good) ↦
                let (size, hash) = accept_response_ok d id _ other good in
                let same : other ≡ content = ground arith in
                subst (λ x. (contents.size x ≡ d.size) × (contents.digest x ≡ id)) same (size, hash)
          ]

    -- What a fetch returns has the size and the hash of its descriptor, be it from the cache or from
    -- the store.
    pub fetch-IsBlob :
        (d : Descriptor) (cache : Table Content) (content : Content)
        → (fetch contents net d cache).1 ≡ ok content
        → IsBlob d content
    unfolding fetch take_cached
    fetch-IsBlob d cache content h =
        let id = trim_prefix d.digest "sha256:" in
        elim (Option-cases (read_file contents net id cache)) [
          | inr (held, e) ↦ (ground arith, ground (arith, eq_iff (contents.digest held) id))
          | inl e ↦ download_ok d id cache content (ground arith)
        ]

    -- A fetch leaves the cache or saves one blob of at most 16 MiB under its hash, and keeps the sum
    -- of the sizes within 512 MiB.
    pub fetch_bounded :
        (d : Descriptor) (cache : Table Content)
        → cached_bytes contents net cache ≤ max_cache
        → (cached_bytes contents net (fetch contents net d cache).0 ≤ max_cache)
          × (((fetch contents net d cache).0 ≡ cache)
              ⊎ ((content : Content) × IsBlob d content
                  × (d.size ≤ max_blob)
                  × ((fetch contents net d cache).0
                      ≡ insert (trim_prefix d.digest "sha256:") content cache)))
    unfolding fetch take_cached
    fetch_bounded d cache fits =
        let id = trim_prefix d.digest "sha256:" in
        elim (Bool-cases (not (valid_digest d.digest) || ltb d.size 1 || ltb max_blob d.size)) [
          | inl refused ↦ (ground arith, inl (ground arith))
          | inr passed ↦ elim (Option-cases (read_file contents net id cache)) [
            | inr (held, e) ↦ (ground arith, inl (ground arith))
            | inl e ↦
                let same : (download contents net d id cache).0 ≡ (fetch contents net d cache).0 =
                  ground arith in
                elim (download_cases d id cache) [
                  | inl kept ↦ (
                    subst (λ t. cached_bytes contents net t ≤ max_cache) (sym kept ∙ same) fits,
                    inl (sym same ∙ kept),
                  )
                  | inr (content, size, hash, room, saved) ↦ (
                    subst (λ t. cached_bytes contents net t ≤ max_cache) (sym saved ∙ same)
                        (ground (arith, cached_bytes-insert id content cache)),
                    inr (content, (size, hash), ground arith, sym same ∙ saved),
                  )
                ]
          ]
        ]
