-- ===== src/Objects/Integrity.antt =====
-- What the object store keeps (cmd/objects/main.go): each object is named by its hash, and stays.
use edgelab.Shared.Text.{trim_prefix}
use edgelab.Shared.Table.{Table, insert, lookup, lookup-insert}
use edgelab.Objects.{
  Conditions, Directory, Hashing, Request, Store, clean_up, close_file, copy_body, create_temp,
  dispatch, get, is_object, link, max_body, max_slots, owned, publish, put, serve_http,
  serve_requests, sync_file, upload,
}
use edgelab.Shared.{
  Bool-cases, List, Option-cases, String, [], arith, eq_iff, inl, inr, ltb, none, not, some, str_eq,
  subst, ◌||◌, ◌∷◌, ◌≡◌, ◌⊎◌,
}

-- Every object's name is the hash of its content.
abbrev pub IsAddressed : {Content : Type 0} → Hashing Content → Table Content → Type 0
IsAddressed {Content} hashing m =
    (id : String) (content : Content) → lookup id m ≡ some content → hashing.sha256_hex content ≡ id

-- Every object is there still, with the same content.
abbrev pub Keeps : {Content : Type 0} → Table Content → Table Content → Type 0
Keeps {Content} m m' =
    (id : String) (content : Content) → lookup id m ≡ some content → lookup id m' ≡ some content

module _ {Content : Type 0} (hashing : Hashing Content) where
  -- The objects are as they were, or there is one more, under the hash of its content.
  abbrev pub Publishes : Table Content → Table Content → Type 0
  Publishes m m' =
      (m' ≡ m)
      ⊎ ((id : String) × (body : Content) × (lookup id m ≡ none)
          × (hashing.sha256_hex body ≡ id)
          × (m' ≡ insert id body m))

  IsAddressed-Publishes :
      (m m' : Table Content) → IsAddressed hashing m → Publishes m m' → IsAddressed hashing m'
  IsAddressed-Publishes m m' addressed (inl same) id content h =
      addressed id content (subst (λ t. lookup id t ≡ some content) same h)
  IsAddressed-Publishes m m' addressed (inr (k, body, new, hash, e)) id content h =
      let h' : lookup id (insert k body m) ≡ some content =
        subst (λ t. lookup id t ≡ some content) e h in
      ground (arith, lookup-insert k id body m, eq_iff k id, addressed id content)

  Keeps-Publishes : (m m' : Table Content) → Publishes m m' → Keeps m m'
  Keeps-Publishes m m' (inl same) id content h = rw same h
  Keeps-Publishes m m' (inr (k, body, new, hash, e)) id content h =
      rw e (ground (arith, lookup-insert k id body m, eq_iff k id))

  module _ (s : Store) (c : Conditions) where
    Publishes-upload :
        (id : String) (body : Content) (d : Directory Content)
        → Publishes d.objects (upload hashing s c id body d).0.objects
    unfolding upload publish
    Publishes-upload id body d = elim (Option-cases (lookup id d.objects)) [
      | inr (existing, e) ↦ inl (ground arith)
      | inl new ↦ elim (Bool-cases (str_eq (hashing.sha256_hex body) id)) [
        | inr other ↦ inl (ground arith)
        | inl same ↦
            elim (Bool-cases (
              c.fails copy_body
              || ltb max_body (hashing.size body)
              || c.fails sync_file
              || c.fails close_file
              || c.fails link)) [
                | inl failed ↦ inl (ground arith)
                | inr passed ↦ inr (
                  id,
                  body,
                  new,
                  ground (arith, eq_iff (hashing.sha256_hex body) id),
                  ground arith,
                )
              ]
      ]
    ]

    Publishes-put :
        (id : String) (body : Content) (d : Directory Content)
        → Publishes d.objects (put hashing s c id body d).0.objects
    unfolding put clean_up
    Publishes-put id body d = elim (Bool-cases (c.fails create_temp)) [
      | inl failed ↦ inl (ground arith)
      | inr made ↦
          let d' : Directory Content = record d { pending = c.temp_name ∷ d.pending } in
          let same : (upload hashing s c id body d').0.objects
              ≡ (put hashing s c id body d).0.objects =
            ground arith in
          subst (Publishes d.objects) same (Publishes-upload id body d')
    ]

    Publishes-serve_http :
        (request : Request Content) (d : Directory Content)
        → Publishes d.objects (serve_http hashing s c request d).0.objects
    unfolding serve_http dispatch get
    Publishes-serve_http request d =
        let id = trim_prefix request.path "/objects/" in
        let put_case = Publishes-put id request.body d in
        elim (Bool-cases (
          not (ltb c.slots_in_use max_slots)
          || not (owned s c)
          || str_eq request.path "/health"
          || not (is_object request.path)
          || not (str_eq request.method "PUT")
          || str_eq request.method "GET")) [
            | inl e ↦ inl (ground arith)
            | inr e ↦
                let same : (put hashing s c id request.body d).0.objects
                    ≡ (serve_http hashing s c request d).0.objects =
                  ground arith in
                subst (Publishes d.objects) same put_case
          ]

-- Requests, with whatever failures, keep every object's name the hash of its content.
pub serve_requests-IsAddressed :
    {Content : Type 0} (hashing : Hashing Content) (s : Store) (d : Directory Content)
    (requests : List (Conditions × Request Content))
    → IsAddressed hashing d.objects
    → IsAddressed hashing (serve_requests hashing s d requests).objects
unfolding serve_requests
serve_requests-IsAddressed hashing s d [] h = h
serve_requests-IsAddressed hashing s d ((c, request) ∷ rest) h =
    let d' = (serve_http hashing s c request d).0 in
    serve_requests-IsAddressed hashing s d' rest (
      IsAddressed-Publishes hashing d.objects d'.objects h
        (Publishes-serve_http hashing s c request d))

-- No request, whatever fails, removes or changes an object that is stored.
pub serve_requests-Keeps :
    {Content : Type 0} (hashing : Hashing Content) (s : Store) (d : Directory Content)
    (requests : List (Conditions × Request Content))
    → Keeps d.objects (serve_requests hashing s d requests).objects
unfolding serve_requests
serve_requests-Keeps hashing s d [] id content h = h
serve_requests-Keeps hashing s d ((c, request) ∷ rest) id content h =
    let d' = (serve_http hashing s c request d).0 in
    serve_requests-Keeps hashing s d' rest id content (
      Keeps-Publishes hashing d.objects d'.objects (Publishes-serve_http hashing s c request d) id
        content h)
