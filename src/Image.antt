-- ===== src/Image.antt =====
-- The blobs of images (cmd/worker/image.go): fetched from a store, verified, and kept in a cache of
-- files named by their hash.
pub mod Fetching
pub mod Archive
pub mod Layers
pub mod Unpack
use edgelab.Shared.Text.{matches_class, trim_prefix}
use edgelab.Shared.Table.{Table, insert, lookup}
use edgelab.Shared.Outcome.{Outcome, err, ok}
use edgelab.Shared.{
  Bool, Option, String, [], if◌then◌else◌, leb, ltb, none, not, some, starts_with, str_append,
  str_eq, ℕ, ◌&&◌, ◌+◌, ◌==◌, ◌||◌, ◌∷◌,
}
use edgelab.Shared.Action.{◌>>◌, ◌>>=◌, Action, gets, lift, modify, pure, stop_if}

pub record Descriptor : Type 0 where
  pub media_type : String
  pub digest : String
  pub size : ℕ

-- crypto/sha256 with encoding/hex, the length of a content, and its first bytes (io.LimitReader).
pub record Contents (Content : Type 0) : Type 0 where
  pub digest : Content → String
  pub size : Content → ℕ
  pub limit : ℕ → Content → Content

pub record Response (Content : Type 0) : Type 0 where
  pub status : ℕ
  pub body : Content

-- The calls of a fetch that may fail.
pub data FileCall : Type 0 where
  read_target read_cache read_body write_pending rename sync_cache : FileCall

-- What a fetch meets: the calls that fail, and the store's answer to each path.
pub record Network (Content : Type 0) : Type 0 where
  pub fails : FileCall → Bool
  pub get : String → Option (Response Content)

pub data FetchError : Type 0 where
  invalid_descriptor corrupt_cached_blob unreadable_cache cache_full : FetchError
  store_unreachable bad_status bad_length bad_digest not_saved : FetchError

-- 16<<20
abbrev pub max_blob : ℕ
max_blob = 16777216

-- 512<<20
abbrev pub max_cache : ℕ
max_cache = 536870912

unfoldable pub is_hex_digit : ℕ → Bool
is_hex_digit c = (leb b'0' c && leb c b'9') || (leb b'a' c && leb c b'f')

-- `sha256:` and 32 bytes in lower case.
unfoldable pub valid_digest : String → Bool
valid_digest s =
    starts_with s "sha256:" && matches_class is_hex_digit 64 64 (trim_prefix s "sha256:")

module _ {Content : Type 0} (contents : Contents Content) (net : Network Content) where
  -- The sum of the sizes of the cached files.
  unfoldable pub cached_bytes : Table Content → ℕ
  cached_bytes [] = 0
  cached_bytes ((name, content) ∷ rest) = contents.size content + cached_bytes rest

  -- os.ReadFile of the target: an error of any kind is taken for a file that is not there.
  unfoldable pub read_file : String → Table Content → Option Content
  read_file id cache = if net.fails read_target then none else lookup id cache

  -- durableFile: written beside the target, then renamed over it.
  unfoldable pub durable_file : String → Content → Action (Table Content) FetchError (Unit {0})
  durable_file id content = do
    stop_if (net.fails write_pending || net.fails rename) not_saved
    modify (λ cache. insert id content cache)
    stop_if (net.fails sync_cache) not_saved

  -- The answer of the store, if it is the blob.
  unfoldable pub accept_response :
      Descriptor → String → Option (Response Content) → Outcome FetchError Content
  accept_response d id none = err store_unreachable
  accept_response d id (some response) =
      let content = contents.limit (d.size + 1) response.body in
      if not (response.status == 200)
      then err bad_status
      else if net.fails read_body
      then err store_unreachable
      else if not (contents.size content == d.size)
      then err bad_length
      else if not (str_eq (contents.digest content) id)
      then err bad_digest
      else ok content

  unfoldable pub download : Descriptor → String → Action (Table Content) FetchError Content
  unfolding durable_file
  download d id = do
    stop_if (net.fails read_cache) unreadable_cache
    cached ← gets cached_bytes
    stop_if (ltb max_cache (cached + d.size)) cache_full
    content ← lift (accept_response d id (net.get (str_append "/blobs/sha256/" id)))
    durable_file id content
    pure content

  -- A cached file is the blob, or the fetch fails.
  unfoldable pub take_cached :
      Descriptor → String → Option Content → Action (Table Content) FetchError Content
  unfolding download
  take_cached d id none = download d id
  take_cached d id (some content) =
      if contents.size content == d.size && str_eq (contents.digest content) id
      then pure content
      else lift (err corrupt_cached_blob)

  unfoldable pub fetch : Descriptor → Action (Table Content) FetchError Content
  unfolding take_cached
  fetch d = do
    stop_if (not (valid_digest d.digest) || ltb d.size 1 || ltb max_blob d.size) invalid_descriptor
    target ← gets (read_file (trim_prefix d.digest "sha256:"))
    take_cached d (trim_prefix d.digest "sha256:") target
