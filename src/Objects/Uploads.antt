-- ===== src/Objects/Uploads.antt =====
-- The temporary files of uploads (cmd/objects/main.go).
use edgelab.Shared.Text.{trim_prefix}
use edgelab.Shared.Table.{lookup}
use edgelab.Objects.{
  Conditions, Directory, Hashing, Request, Store, clean_up, create_temp, deferred_remove, dispatch,
  get, publish, put, remove, serve_http, upload,
}
use edgelab.Shared.{
  Bool-cases, List, Option-cases, String, [], ap, arith, eq_iff, eq_refl, false, inl, inr, refl,
  str_eq, sym, ◌∙◌, ◌∷◌, ◌≡◌, ◌⊎◌,
}
use mathlib.Core.List.{Memᴰ}

remove_new : (name : String) (l : List String) → ¬ Memᴰ name l → remove name l ≡ l
unfolding remove
remove_new name [] new = refl
remove_new name (first ∷ rest) new =
    let others = remove_new name rest (λ m. new (Memᴰ.tail m)) in
    elim (Bool-cases (str_eq first name)) [
      | inl same ↦ absurd (new (Memᴰ.head (sym ((eq_iff first name).0 same))))
      | inr other ↦ ground arith
    ]

remove_first : (name : String) (l : List String) → remove name (name ∷ l) ≡ remove name l
unfolding remove
remove_first name l = ground (arith, eq_refl name)

module _ {Content : Type 0} (hashing : Hashing Content) (s : Store) (c : Conditions) where
  pending-upload :
      (id : String) (body : Content) (d : Directory Content)
      → ((upload hashing s c id body d).0.pending ≡ d.pending)
        ⊎ ((upload hashing s c id body d).0.pending ≡ remove c.temp_name d.pending)
  unfolding upload publish
  pending-upload id body d = elim (Option-cases (lookup id d.objects)) [
    | inr (existing, e) ↦ ground arith
    | inl new ↦ ground arith
  ]

  pending-put :
      (id : String) (body : Content) (d : Directory Content)
      → c.fails deferred_remove ≡ false
      → ¬ Memᴰ c.temp_name d.pending
      → (put hashing s c id body d).0.pending ≡ d.pending
  unfolding put clean_up
  pending-put id body d cleans new =
      let d' : Directory Content = record d { pending = c.temp_name ∷ d.pending } in
      let kept = remove_new c.temp_name d.pending new in
      let first = remove_first c.temp_name d.pending in
      elim (Bool-cases (c.fails create_temp)) [
        | inl failed ↦ ground arith
        | inr made ↦
            let at : (put hashing s c id body d).0.pending
                ≡ remove c.temp_name (upload hashing s c id body d').0.pending =
              ground arith in
            at ∙ (elim (pending-upload id body d') [
              | inl e ↦ ap (remove c.temp_name) e ∙ (first ∙ kept)
              | inr e ↦ ap (remove c.temp_name) e ∙ (ap (remove c.temp_name) (first ∙ kept) ∙ kept)
            ])
      ]

  -- Unless the last removal fails, no request, whatever else fails in it, leaves its temporary file
  -- behind or removes another. The name of that file is a new one.
  pending-serve_http :
      (request : Request Content) (d : Directory Content)
      → c.fails deferred_remove ≡ false
      → ¬ Memᴰ c.temp_name d.pending
      → (serve_http hashing s c request d).0.pending ≡ d.pending
  unfolding serve_http dispatch get
  pending-serve_http request d cleans new =
      let uploaded = pending-put (trim_prefix request.path "/objects/") request.body d cleans new in
      ground (arith, uploaded)
