-- ===== src/Examples/Fetches.antt =====
-- A blob that is fetched into an empty cache: contents are texts, each its own hash.
use edgelab.Shared.Outcome.{ok}
use edgelab.Shared.Table.{insert, lookup}
use edgelab.Shared.{String, [], arith, false, len, refl, some, ◌∷◌, ◌≡◌, ◌≤◌, ◌⊎◌}
use edgelab.Image.Fetching.{IsBlob, fetch_bounded}
use edgelab.Image.{
  Contents, Descriptor, Network, accept_response, cached_bytes, download, durable_file, fetch,
  is_hex_digit, max_blob, max_cache, read_file, take_cached, valid_digest,
}

abbrev blob : String
blob = "0123456789abcdef0123456789abcdef0123456789abcdef0123456789abcdef"

abbrev texts : Contents String
texts = record { digest = λ s. s; size = len; limit = λ n s. s }

abbrev layer : Descriptor
layer = record {
  media_type = "application/vnd.oci.image.layer.v1.tar+gzip";
  digest = "sha256:0123456789abcdef0123456789abcdef0123456789abcdef0123456789abcdef";
  size = 64;
}

abbrev online : Network String
online = record { fails = λ x. false; get = λ path. some (record { status = 200; body = blob }) }

is_fetched : fetch texts online layer [] ≡ ((blob, blob) ∷ [], ok blob)
unfolding fetch take_cached download durable_file accept_response read_file cached_bytes
    valid_digest is_hex_digit lookup insert
is_fetched = refl

fetch_bounded_example :
    (cached_bytes texts online (fetch texts online layer []).0 ≤ max_cache)
    × (((fetch texts online layer []).0 ≡ [])
        ⊎ ((content : String) × IsBlob texts layer content
            × (64 ≤ max_blob)
            × ((fetch texts online layer []).0 ≡ insert blob content [])))
unfolding cached_bytes
fetch_bounded_example = fetch_bounded texts online layer [] (omega arith)
