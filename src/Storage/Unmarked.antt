-- ===== src/Storage/Unmarked.antt =====
-- What the digest of an image's files leaves out (cmd/worker/storage.go, treeDigest).
use edgelab.Shared.{
  Bool, Option, String, [], arith, eq_iff, false, refl, some, str_eq, sym, true, ℕ, ◌∙◌, ◌≡◌, ap,
}
use edgelab.Storage.Digest.{
  digest_records, next_entry, enter, Found, Listing, Printing, WalkError, after_visit, cons,
  directory, entry_path, nil, records_of, regular, special, tree_digest, visit_file, visit_folder,
  visit_special, walk, walk_all,
}
use edgelab.Shared.Table.{Table}
use edgelab.Shared.Outcome.{Outcome, err, ok}

-- The marker of an image, if it is no folder, and a folder at lost+found.
unfoldable pub is_left_out : {Content : Type 0} → String → Found Content → Bool
is_left_out name (directory perm is_readable children) = str_eq name "lost+found"
is_left_out name (regular perm content) = str_eq name ".edgelab-image.json"
is_left_out name (special perm) = str_eq name ".edgelab-image.json"

-- The same entries in the same order, those apart that are left out.
pub data Alike {Content : Type 0} : Listing Content → Listing Content → Type 0 where
  ends : Alike nil nil
  keeps :
      {f g : Listing Content} (name : String) (e : Found Content)
      → Alike f g
      → Alike (cons name e f) (cons name e g)
  left :
      {f g : Listing Content} (name : String) (e : Found Content)
      → is_left_out name e ≡ true
      → Alike f g
      → Alike (cons name e f) g
  right :
      {f g : Listing Content} (name : String) (e : Found Content)
      → is_left_out name e ≡ true
      → Alike f g
      → Alike f (cons name e g)

marker_is_not_lost :
    (name : String) → str_eq name ".edgelab-image.json" ≡ true → str_eq name "lost+found" ≡ false
marker_is_not_lost name h =
    let same : name ≡ ".edgelab-image.json" = ground (arith, eq_iff name ".edgelab-image.json") in
    rw same refl

module _ {Content : Type 0} (print : Printing Content) where
  walk-left_out :
      (name : String) (e : Found Content) (m : Table String)
      → is_left_out name e ≡ true
      → walk print (entry_path "" name) e m ≡ ok (false, m)
  unfolding walk is_left_out entry_path visit_folder visit_file visit_special after_visit enter
  walk-left_out name (directory perm is_readable children) m h = ground (arith, h)
  walk-left_out name (regular perm content) m h = ground (arith, h, marker_is_not_lost name h)
  walk-left_out name (special perm) m h = ground (arith, h, marker_is_not_lost name h)

  walk_all-cons :
      (at name : String) (e : Found Content) (f : Listing Content) (m : Table String)
      → walk_all print at (cons name e f) m
        ≡ next_entry print (λ m'. walk_all print at f m') (walk print (entry_path at name) e m)
  unfolding walk
  walk_all-cons at name e f m = refl

  walk_all-left_out :
      (name : String) (e : Found Content) (f : Listing Content) (m : Table String)
      → is_left_out name e ≡ true
      → walk_all print "" (cons name e f) m ≡ walk_all print "" f m
  unfolding next_entry
  walk_all-left_out name e f m h =
      walk_all-cons "" name e f m
      ∙ ap (next_entry print (λ m'. walk_all print "" f m')) (walk-left_out name e m h)

  next_entry-same :
      (f g : Table String → Outcome WalkError (Table String))
      (o : Outcome WalkError (Bool × Table String))
      → ((m : Table String) → f m ≡ g m)
      → next_entry print f o ≡ next_entry print g o
  unfolding next_entry
  next_entry-same f g (err e) h = refl
  next_entry-same f g (ok (true, m)) h = refl
  next_entry-same f g (ok (false, m)) h = h m

  walk_all-Alike :
      {f g : Listing Content}
      → Alike f g
      → (m : Table String) → walk_all print "" f m ≡ walk_all print "" g m
  walk_all-Alike ends m = refl
  walk_all-Alike (keeps {f} {g} name e alike) m =
      walk_all-cons "" name e f m
      ∙ next_entry-same (λ m'. walk_all print "" f m') (λ m'. walk_all print "" g m')
          (walk print (entry_path "" name) e m) (walk_all-Alike alike)
      ∙ sym (walk_all-cons "" name e g m)
  walk_all-Alike (left {f} {g} name e h alike) m =
      walk_all-left_out name e f m h ∙ walk_all-Alike alike m
  walk_all-Alike (right {f} {g} name e h alike) m =
      walk_all-Alike alike m ∙ sym (walk_all-left_out name e g m h)

  -- Two volumes whose roots have the same entries in the same order have the same digest, or the same
  -- error, whatever marker of an image and whatever folder lost+found each has besides.
  pub tree_digest-Alike :
      (f g : Listing Content) (perm q : Option ℕ)
      → Alike f g
      → tree_digest print (some (directory perm true f))
        ≡ tree_digest print (some (directory q true g))
  unfolding tree_digest records_of
  tree_digest-Alike f g perm q alike = ap (digest_records print) (walk_all-Alike alike [])
