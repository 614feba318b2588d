-- ===== src/Objects/Reading.antt =====
-- What a client of the object store can rely on (cmd/objects/main.go).
use edgelab.Shared.Text.{trim_prefix}
use edgelab.Objects.Integrity.{serve_requests-Keeps}
use edgelab.Shared.Table.{lookup, lookup-insert, insert}
use edgelab.Shared.Outcome.{err, ok}
use edgelab.Objects.{
  Conditions, Directory, Hashing, Request, Store, clean_up, created, dispatch, found, get,
  is_object, max_slots, open_object, owned, publish, put, serve_http, serve_requests, stat_object,
  upload, copy_body, max_body,
}
use edgelab.Shared.{
  Bool-cases, List, Option-cases, String, ap, arith, eq_iff, eq_refl, false, inl, inr, ltb, refl,
  some, str_eq, subst, sym, true, ℕ, ◌∙◌, ◌∷◌, ◌≡◌, ◌≢◌, none, not, ◌||◌,
}

module _ {Content : Type 0} (hashing : Hashing Content) (s : Store) (c : Conditions) where
  -- The object is stored under its name, which is its hash.
  abbrev pub IsStored : String → Directory Content → Type 0
  IsStored id d =
      (content : Content) × (lookup id d.objects ≡ some content) × (hashing.sha256_hex content ≡ id)

  upload_hash :
      (id : String) (body : Content) (d : Directory Content)
      → (upload hashing s c id body d).1 ≡ ok created
      → hashing.sha256_hex body ≡ id
  unfolding upload
  upload_hash id body d h = ground (arith, eq_iff (hashing.sha256_hex body) id)

  upload_new :
      (id : String) (body : Content) (d : Directory Content)
      → lookup id d.objects ≡ none
      → (upload hashing s c id body d).1 ≡ ok created
      → (upload hashing s c id body d).0.objects ≡ insert id body d.objects
  unfolding upload publish
  upload_new id body d new h = ground arith

  upload_old :
      (id : String) (body existing : Content) (d : Directory Content)
      → lookup id d.objects ≡ some existing
      → (upload hashing s c id body d).1 ≡ ok created
      → ((upload hashing s c id body d).0.objects ≡ d.objects) × (hashing.sha256_hex existing ≡ id)
  unfolding upload publish
  upload_old id body existing d old h =
      (ground arith, ground (arith, eq_iff (hashing.sha256_hex existing) id))

  IsStored-upload :
      (id : String) (body : Content) (d : Directory Content)
      → (upload hashing s c id body d).1 ≡ ok created
      → IsStored id (upload hashing s c id body d).0
  IsStored-upload id body d h = elim (Option-cases (lookup id d.objects)) [
    | inr (existing, old) ↦
        let (kept, hash) = upload_old id body existing d old h in
        (existing, ap (lookup id) kept ∙ old, hash)
    | inl new ↦ (
      body,
      ap (lookup id) (upload_new id body d new h)
          ∙ ground (arith, lookup-insert id id body d.objects, eq_refl id),
      upload_hash id body d h,
    )
  ]

  IsStored-put :
      (id : String) (body : Content) (d : Directory Content)
      → (put hashing s c id body d).1 ≡ ok created
      → IsStored id (put hashing s c id body d).0
  unfolding put clean_up
  IsStored-put id body d h =
      let d' : Directory Content = record d { pending = c.temp_name ∷ d.pending } in
      let answered : (upload hashing s c id body d').1 ≡ ok created = ground arith in
      let (content, stored, hash) = IsStored-upload id body d' answered in
      (content, ground arith, hash)

  pub IsStored-serve_http :
      (request : Request Content) (d : Directory Content)
      → (serve_http hashing s c request d).1 ≡ ok created
      → is_object request.path ≡ true
        × IsStored (trim_prefix request.path "/objects/") (serve_http hashing s c request d).0
  unfolding serve_http dispatch get
  IsStored-serve_http request d h =
      let id = trim_prefix request.path "/objects/" in
      let same : serve_http hashing s c request d ≡ put hashing s c id request.body d =
        ground arith in
      (
        ground arith,
        subst (λ r. IsStored id r.0) (sym same)
            (IsStored-put id request.body d (ap (λ r. r.1) (sym same) ∙ h)),
      )

  put_hash :
      (id : String) (body : Content) (d : Directory Content)
      → (put hashing s c id body d).1 ≡ ok created
      → hashing.sha256_hex body ≡ id
  unfolding put clean_up
  put_hash id body d h =
      let d' : Directory Content = record d { pending = c.temp_name ∷ d.pending } in
      let answered : (upload hashing s c id body d').1 ≡ ok created = ground arith in
      upload_hash id body d' answered

  pub serve_http_hash :
      (request : Request Content) (d : Directory Content)
      → (serve_http hashing s c request d).1 ≡ ok created
      → hashing.sha256_hex request.body ≡ trim_prefix request.path "/objects/"
  unfolding serve_http dispatch get
  serve_http_hash request d h =
      let id = trim_prefix request.path "/objects/" in
      let same : serve_http hashing s c request d ≡ put hashing s c id request.body d =
        ground arith in
      put_hash id request.body d (ap (λ r. r.1) (sym same) ∙ h)

  pub serve_http-get :
      (request : Request Content) (d : Directory Content) (content : Content)
      → ltb c.slots_in_use max_slots ≡ true
      → owned s c ≡ true
      → c.fails open_object ≡ false
      → c.fails stat_object ≡ false
      → str_eq request.path "/health" ≡ false
      → is_object request.path ≡ true
      → request.method ≡ "GET"
      → lookup (trim_prefix request.path "/objects/") d.objects ≡ some content
      → serve_http hashing s c request d ≡ (d, ok (found content))
  unfolding serve_http dispatch get
  serve_http-get request d content slots own o t path object method h =
      ground (arith, eq_iff request.method "GET")

pub health_is_no_object : (path : String) → is_object path ≡ true → str_eq path "/health" ≡ false
unfolding is_object
health_is_no_object path h = elim (Bool-cases (str_eq path "/health")) [
  | inr e ↦ e
  | inl e ↦
      let impossible : is_object "/health" ≡ true =
        subst (λ p. is_object p ≡ true) ((eq_iff path "/health").0 e) h in
      cc
]

module _ {Content : Type 0} (hashing : Hashing Content) (s : Store) where
  -- When an upload is answered with 201, then after any further requests, whatever fails in them, a
  -- GET of the same path that finds a free slot, the volume mounted and its owner's, and whose file
  -- calls do not fail, returns a content whose hash is the object's name.
  pub read_after_write :
      (c c' : Conditions) (request : Request Content) (d : Directory Content)
      (requests : List (Conditions × Request Content))
      → (serve_http hashing s c request d).1 ≡ ok created
      → ltb c'.slots_in_use max_slots ≡ true
      → owned s c' ≡ true
      → c'.fails open_object ≡ false
      → c'.fails stat_object ≡ false
      → let later = serve_requests hashing s (serve_http hashing s c request d).0 requests in
        (content : Content) × (hashing.sha256_hex content ≡ trim_prefix request.path "/objects/")
        × (serve_http hashing s c' (record request { method = "GET" }) later
            ≡ (later, ok (found content)))
  read_after_write c c' request d requests h slots own o t =
      let (object, (content, stored, hash)) = IsStored-serve_http hashing s c request d h in
      let d' = (serve_http hashing s c request d).0 in
      (
        content,
        hash,
        serve_http-get hashing s c' (record request { method = "GET" })
            (serve_requests hashing s d' requests) content slots own o t
            (health_is_no_object request.path object) object refl
            (serve_requests-Keeps hashing s d' requests _ content stored),
      )

  -- Past the hash of the body, every error is a 507.
  upload_late :
      (c : Conditions) (id : String) (body : Content) (d : Directory Content) (status : ℕ)
      → (c.fails copy_body || ltb max_body (hashing.size body)) ≡ false
      → str_eq (hashing.sha256_hex body) id ≡ true
      → (upload hashing s c id body d).1 ≡ err status
      → status ≡ 507
  unfolding upload publish
  upload_late c id body d status copied same h = elim (Option-cases (lookup id d.objects)) [
    | inr (existing, old) ↦ ground arith
    | inl new ↦ ground arith
  ]

  upload_early :
      (c : Conditions) (id : String) (body : Content) (d : Directory Content)
      → (c.fails copy_body
          || ltb max_body (hashing.size body)
          || not (str_eq (hashing.sha256_hex body) id))
        ≡ true
      → (upload hashing s c id body d).0 ≡ d
  unfolding upload
  upload_early c id body d failed = ground arith

  upload_refused :
      (c : Conditions) (id : String) (body : Content) (d : Directory Content) (status : ℕ)
      → (upload hashing s c id body d).1 ≡ err status
      → status ≢ 507
      → (upload hashing s c id body d).0.objects ≡ d.objects
  upload_refused c id body d status h other =
      elim (Bool-cases (
        c.fails copy_body
        || ltb max_body (hashing.size body)
        || not (str_eq (hashing.sha256_hex body) id))) [
          | inl failed ↦ ap (λ d'. d'.objects) (upload_early c id body d failed)
          | inr passed ↦
              absurd (other (upload_late c id body d status (ground arith) (ground arith) h))
        ]

  put_refused :
      (c : Conditions) (id : String) (body : Content) (d : Directory Content) (status : ℕ)
      → (put hashing s c id body d).1 ≡ err status
      → status ≢ 507
      → (put hashing s c id body d).0.objects ≡ d.objects
  unfolding put clean_up
  put_refused c id body d status h other =
      ground
        (arith, upload_refused c id body (record d { pending = c.temp_name ∷ d.pending }) status)

  -- A request that is refused with a status other than 507 leaves every object as it was.
  serve_http_refused :
      (c : Conditions) (request : Request Content) (d : Directory Content) (status : ℕ)
      → (serve_http hashing s c request d).1 ≡ err status
      → status ≢ 507
      → (serve_http hashing s c request d).0.objects ≡ d.objects
  unfolding serve_http dispatch get
  serve_http_refused c request d status h other =
      ground (arith, put_refused c (trim_prefix request.path "/objects/") request.body d status)
