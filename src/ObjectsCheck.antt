-- ===== src/ObjectsCheck.antt =====
-- The client of the object store (cmd/objects-check/main.go): it uploads objects and keeps a manifest
-- of those that were acknowledged, or verifies every object of the manifest.
pub mod Backed
pub mod Verified
use edgelab.Management.{answer}
use edgelab.Objects.{
  Conditions, Directory, Hashing, Reply, Request, Store, created, found, health, serve_http,
}
use edgelab.Shared.Outcome.{Outcome, err, ok}
use edgelab.Shared.{
  Bool, List, Option, String, [], false, if◌then◌else◌, ltb, none, not, some, str_append, str_eq,
  true, ℕ, ◌&&◌, ◌++◌, ◌+◌, ◌==◌, ◌||◌, ◌∷◌, ◌<◌, ◌≡◌, ◌≤◌,
}
use edgelab.Shared.Action.{◌>>◌, Action, modify, pure, stop_if, ◌>>◌, ◌>>=◌}

-- `object`
pub record Object : Type 0 where
  pub id : String
  pub bytes : ℕ

-- io.LimitReader: all of a content that is short enough, or as much as is allowed.
pub record Limiting {Content : Type 0} (hashing : Hashing Content) : Type 0 where
  pub limit : ℕ → Content → Content
  pub limit_all : (n : ℕ) (c : Content) → hashing.size c ≤ n → limit n c ≡ c
  pub limit_cut : (n : ℕ) (c : Content) → n < hashing.size c → hashing.size (limit n c) ≡ n

-- What a request meets: whether it reaches the store, what the store meets, whether the response and
-- its body come back, whether the line of the manifest is written and synchronised, and whether a write
-- that fails leaves a part of the line.
pub record Trip : Type 0 where
  pub is_sent : Bool
  pub conditions : Conditions
  pub is_answered : Bool
  pub is_read : Bool
  pub is_written : Bool
  pub is_synchronised : Bool
  pub leaves_part : Bool

-- The store's directory and the client's file and flag. A line of the manifest that is no object is
-- none.
pub record World (Content : Type 0) : Type 0 where
  pub directory : Directory Content
  pub manifest : List (Option Object)
  pub failed : Bool

pub data CheckError : Type 0 where
  invalid_bounds manifest_not_saved unreadable_manifest empty_manifest : CheckError

-- 8<<20
abbrev pub max_bytes : ℕ
max_bytes = 8388608

abbrev pub max_count : ℕ
max_count = 10000

unfoldable pub check_bounds : ℕ → ℕ → Outcome CheckError (Unit {0})
check_bounds size count =
    if ltb size 1 || ltb max_bytes size || ltb count 1 || ltb max_count count
    then err invalid_bounds
    else ok tt

-- *url+"/objects/"+o.ID
unfoldable pub path_of : String → String
path_of id = str_append "/objects/" id

module _ {Content : Type 0} (hashing : Hashing Content) (limiting : Limiting hashing)
    (s : Store) where
  -- client.Do
  unfoldable pub send :
      Trip
      → Request Content
      → Directory Content
      → Directory Content × Option (Outcome ℕ (Reply Content))
  send t request d = if not t.is_sent then (d, none) else (
    (serve_http hashing s t.conditions request d).0,
    if t.is_answered then some (serve_http hashing s t.conditions request d).1 else none,
  )

  -- The status is 201, which the store answers to an upload alone.
  unfoldable pub is_acknowledged : Option (Outcome ℕ (Reply Content)) → Bool
  is_acknowledged none = false
  is_acknowledged (some (ok created)) = true
  is_acknowledged (some (ok (found content))) = false
  is_acknowledged (some (ok (health owner))) = false
  is_acknowledged (some (err status)) = false

  -- The body, of which one byte more than expected is read, has the size and the hash.
  unfoldable pub matches_object : Object → Content → Bool
  matches_object o content =
      let body = limiting.limit (o.bytes + 1) content in
      hashing.size body == o.bytes && str_eq (hashing.sha256_hex body) o.id

  unfoldable pub is_verified : Object → Bool → Option (Outcome ℕ (Reply Content)) → Bool
  unfolding matches_object
  is_verified o is_read none = false
  is_verified o is_read (some (ok (found content))) = is_read && matches_object o content
  is_verified o is_read (some (ok created)) = false
  is_verified o is_read (some (ok (health owner))) = false
  is_verified o is_read (some (err status)) = false

  -- What the write of an object's line adds to the manifest: the line, a part of it, or nothing.
  unfoldable pub line_of : Trip → Object → List (Option Object)
  line_of t o = if t.is_written then some o ∷ [] else if t.leaves_part then none ∷ [] else []

  -- What follows an upload: an acknowledged object is appended to the manifest.
  unfoldable pub acknowledge : Trip → Object → Bool → Action (World Content) CheckError (Unit {0})
  unfolding line_of
  acknowledge t o false = modify (λ w. record w { failed = true })
  acknowledge t o true = do
    modify (λ w. record w { manifest = w.manifest ++ line_of t o })
    stop_if (not t.is_written || not t.is_synchronised) manifest_not_saved

  unfoldable pub put_of : Content → Request Content
  unfolding path_of
  put_of body = record { path = path_of (hashing.sha256_hex body); method = "PUT"; body = body }

  unfoldable pub upload_object : Trip → Content → Action (World Content) CheckError (Unit {0})
  unfolding send acknowledge is_acknowledged put_of
  upload_object t body w =
      let (d, answer) = send t (put_of body) w.directory in
      acknowledge t (record { id = hashing.sha256_hex body; bytes = hashing.size body })
        (is_acknowledged answer) (record w { directory = d })

  -- The loop over the bodies, each with what its request meets.
  unfoldable pub upload_all : List (Trip × Content) → Action (World Content) CheckError (Unit {0})
  upload_all [] = pure tt
  upload_all ((t, body) ∷ rest) = upload_object t body >> upload_all rest

  -- The body of a GET is empty.
  unfoldable pub verify_object : Content → Trip → Object → World Content → World Content
  unfolding send is_verified path_of
  verify_object empty t o w =
      let (d, answer) =
        send t (record { path = path_of o.id; method = "GET"; body = empty }) w.directory in
      record w { directory = d; failed = w.failed || not (is_verified o t.is_read answer) }

  -- The loop over the lines, with the number of the line.
  unfoldable pub verify_lines :
      Content → (ℕ → Trip) → ℕ → List (Option Object) → Action (World Content) CheckError (Unit {0})
  unfolding verify_object
  verify_lines empty trips n [] = stop_if (n == 0) empty_manifest
  verify_lines empty trips n (none ∷ rest) = λ w. (w, err unreadable_manifest)
  verify_lines empty trips n (some o ∷ rest) =
      modify (verify_object empty (trips n) o) >> verify_lines empty trips (n + 1) rest

  unfoldable pub verify_manifest :
      Content → (ℕ → Trip) → Action (World Content) CheckError (Unit {0})
  unfolding verify_lines
  verify_manifest empty trips w = verify_lines empty trips 0 w.manifest w
