-- ===== src/Objects.antt =====
-- The object store of an instance (cmd/objects/main.go): files named by the hash of their content,
-- on a volume that must be mounted and of its owner.
pub mod Integrity
pub mod Reading
pub mod Uploads
use edgelab.Shared.Text.{matches_class, trim_prefix}
use edgelab.Shared.Table.{Table, insert, lookup}
use edgelab.Shared.Outcome.{Outcome, err, expect}
use edgelab.Shared.{
  Bool, List, Option, String, [], false, if◌then◌else◌, leb, ltb, none, not, some, starts_with,
  str_eq, ℕ, ◌&&◌, ◌==◌, ◌||◌, ◌∷◌,
}
use edgelab.Shared.Action.{◌>>◌, ◌>>=◌, Action, gets, lift, modify, pure, stop_if}

-- A response that is no http.Error.
pub data Reply (Content : Type 0) : Type 0 where
  health : String → Reply Content
  found : Content → Reply Content
  created : Reply Content

-- crypto/sha256 with encoding/hex, and the length of a body.
pub record Hashing (Content : Type 0) : Type 0 where
  pub sha256_hex : Content → String
  pub size : Content → ℕ

-- The directory of the volume: the published objects, and the temporary files of uploads.
pub record Directory (Content : Type 0) : Type 0 where
  pub objects : Table Content
  pub pending : List String

pub record Store : Type 0 where
  pub owner : String

pub record Request (Content : Type 0) : Type 0 where
  pub path : String
  pub method : String
  pub body : Content

-- The calls of a request that may fail.
pub data Call : Type 0 where
  open_object stat_object create_temp copy_body sync_file close_file link : Call
  open_existing read_existing remove_temp sync_directory deferred_remove : Call

-- What a request meets: the slots that other requests hold, the two devices and the text of
-- `.owner` without the space around it, the name of the temporary file, and the calls that fail.
pub record Conditions : Type 0 where
  pub slots_in_use : ℕ
  pub device : Option ℕ
  pub parent_device : Option ℕ
  pub owner_file : Option String
  pub temp_name : String
  pub fails : Call → Bool

-- make(chan struct{}, 16)
abbrev pub max_slots : ℕ
max_slots = 16

-- 8<<20
abbrev pub max_body : ℕ
max_body = 8388608

unfoldable pub is_owned_by : String → Option String → Bool
is_owned_by owner none = false
is_owned_by owner (some text) = str_eq text owner

unfoldable pub are_apart : Option ℕ → Option ℕ → Bool
are_apart (some device) (some parent) = not (device == parent)
are_apart none parent = false
are_apart (some device) none = false

-- The volume is mounted, and is the owner's.
unfoldable pub owned : Store → Conditions → Bool
owned s c = are_apart c.device c.parent_device && is_owned_by s.owner c.owner_file

-- [0-9a-f]: hex.DecodeString takes capitals too, and a name with one differs from its lower case.
unfoldable pub is_lower_hex : ℕ → Bool
is_lower_hex c = (leb b'0' c && leb c b'9') || (leb b'a' c && leb c b'f')

-- The path names an object: 32 bytes in lower case.
unfoldable pub is_object : String → Bool
is_object path =
    starts_with path "/objects/" && matches_class is_lower_hex 64 64 (trim_prefix path "/objects/")

-- os.Remove of a temporary file.
unfoldable pub remove : String → List String → List String
remove name [] = []
remove name (first ∷ rest) =
    let others = remove name rest in if str_eq first name then others else first ∷ others

module _ {Content : Type 0} (hashing : Hashing Content) (s : Store) (c : Conditions) where
  unfoldable pub get : String → Action (Directory Content) ℕ (Reply Content)
  get id = do
    objects ← gets (λ d. d.objects)
    content ← lift (expect 404 (lookup id objects))
    stop_if (c.fails open_object || c.fails stat_object) 500
    pure (found content)

  -- os.Link, which replaces nothing: what is there already must hash to its name.
  unfoldable pub publish :
      String → Content → Option Content → Action (Directory Content) ℕ (Unit {0})
  publish id body none = modify (λ d. record d { objects = insert id body d.objects })
  publish id body (some existing) =
      stop_if
        (c.fails open_existing
          || c.fails read_existing
          || not (str_eq (hashing.sha256_hex existing) id))
        507

  -- From the copy of the body to the synchronised directory.
  unfoldable pub upload : String → Content → Action (Directory Content) ℕ (Reply Content)
  unfolding publish
  upload id body = do
    stop_if (c.fails copy_body || ltb max_body (hashing.size body)) 400
    stop_if (not (str_eq (hashing.sha256_hex body) id)) 422
    stop_if (c.fails sync_file || c.fails close_file) 507
    stop_if (c.fails link) 507
    objects ← gets (λ d. d.objects)
    publish id body (lookup id objects)
    stop_if (c.fails remove_temp) 507
    modify (λ d. record d { pending = remove c.temp_name d.pending })
    stop_if (c.fails sync_directory) 507
    pure created

  -- defer os.Remove(f.Name())
  unfoldable pub clean_up :
      Directory Content × Outcome ℕ (Reply Content) → Directory Content × Outcome ℕ (Reply Content)
  clean_up (d, o) = (
    if c.fails deferred_remove then d else record d { pending = remove c.temp_name d.pending },
    o,
  )

  unfoldable pub put : String → Content → Action (Directory Content) ℕ (Reply Content)
  put id body d =
      if c.fails create_temp
      then (d, err 507)
      else clean_up (upload id body (record d { pending = c.temp_name ∷ d.pending }))

  -- An object's request, by its method.
  unfoldable pub dispatch : Request Content → Action (Directory Content) ℕ (Reply Content)
  dispatch request =
      let id = trim_prefix request.path "/objects/" in
      if str_eq request.method "GET"
      then get id
      else if str_eq request.method "PUT"
      then put id request.body
      else lift (err 405)

  unfoldable pub serve_http : Request Content → Action (Directory Content) ℕ (Reply Content)
  serve_http request =
      if not (ltb c.slots_in_use max_slots)
      then lift (err 503)
      else if not (owned s c)
      then lift (err 503)
      else if str_eq request.path "/health"
      then pure (health s.owner)
      else if not (is_object request.path)
      then lift (err 400)
      else dispatch request

-- Requests one after the other, each with what it meets.
unfoldable pub serve_requests :
    {Content : Type 0}
    → Hashing Content
    → Store
    → Directory Content
    → List (Conditions × Request Content)
    → Directory Content
serve_requests hashing s d [] = d
serve_requests hashing s d ((c, request) ∷ rest) =
    serve_requests hashing s (serve_http hashing s c request d).0 rest
