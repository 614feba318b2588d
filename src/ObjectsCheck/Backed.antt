-- ===== src/ObjectsCheck/Backed.antt =====
-- What an acknowledgement is worth (cmd/objects-check/main.go against cmd/objects/main.go).

use mathlib.Core.List.{append-nil}
use edgelab.Shared.Action.{after_bind}
use edgelab.Shared.Outcome.{Outcome, err, ok}
use edgelab.Objects.Reading.{
  IsStored-serve_http, serve_http_hash, health_is_no_object, serve_http-get,
}
use edgelab.Shared.Text.{trim_prefix}
use edgelab.Objects.Integrity.{serve_requests-Keeps}
use edgelab.Shared.Table.{lookup}
use edgelab.ObjectsCheck.{
  line_of, Limiting, Object, Trip, is_acknowledged, path_of, put_of, send, CheckError, World,
  acknowledge, upload_all, upload_object, is_verified, matches_object, verify_object,
}
use edgelab.Shared.{
  Bool-cases, List, Option, [], inl, inr, none, some, true, ◌++◌, ◌∷◌, ◌≡◌, Bool, arith, false, ltb,
  refl, sym, ℕ, ◌∙◌, eq_iff, ◌+◌,
}
use edgelab.Objects.Integrity.{Keeps}
use edgelab.Objects.{
  health, found, serve_requests, serve_http, owned, max_slots, created, Directory, Store, Hashing,
  Request, Reply, open_object, stat_object, is_object,
}

-- The request reaches the store, which has a slot and its volume, and the response comes back.
pub record IsHealthy (s : Store) (t : Trip) : Type 0 where
  pub sent : t.is_sent ≡ true
  pub answered : t.is_answered ≡ true
  pub read : t.is_read ≡ true
  pub slot : ltb t.conditions.slots_in_use max_slots ≡ true
  pub mounted : owned s t.conditions ≡ true
  pub opens : t.conditions.fails open_object ≡ false
  pub stats : t.conditions.fails stat_object ≡ false

module _ {Content : Type 0} (hashing : Hashing Content) where
  -- The store has a content of the object's hash and size, which a GET of its path finds.
  abbrev pub IsBacked : Directory Content → Object → Type 0
  IsBacked d o =
      is_object (path_of o.id) ≡ true
      × ((content : Content) × (lookup (trim_prefix (path_of o.id) "/objects/") d.objects
            ≡ some content)
          × (hashing.sha256_hex content ≡ o.id)
          × (hashing.size content ≡ o.bytes))

  abbrev pub AreBacked : Directory Content → List (Option Object) → Type 0
  AreBacked d [] = Unit
  AreBacked d (none ∷ rest) = ⊥
  AreBacked d (some o ∷ rest) = IsBacked d o × AreBacked d rest

  pub AreBacked-Keeps :
      (d d' : Directory Content) (lines : List (Option Object))
      → Keeps d.objects d'.objects
      → AreBacked d lines
      → AreBacked d' lines
  AreBacked-Keeps d d' [] kept h = tt
  AreBacked-Keeps d d' (none ∷ rest) kept h = h
  AreBacked-Keeps d d' (some o ∷ rest) kept ((object, (content, stored, hash, size)), h) =
      ((object, (content, kept _ content stored, hash, size)), AreBacked-Keeps d d' rest kept h)

  AreBacked-append :
      (d : Directory Content) (lines : List (Option Object)) (o : Object)
      → AreBacked d lines
      → IsBacked d o
      → AreBacked d (lines ++ some o ∷ [])
  AreBacked-append d [] o h b = (b, tt)
  AreBacked-append d (none ∷ rest) o h b = h
  AreBacked-append d (some first ∷ rest) o (a, h) b = (a, AreBacked-append d rest o h b)

  -- Contents of one hash have one size.
  abbrev pub HasNoCollisions : Type 0
  HasNoCollisions =
      (a b : Content)
      → hashing.sha256_hex a ≡ hashing.sha256_hex b
      → hashing.size a ≡ hashing.size b

  module _ (limiting : Limiting hashing) (s : Store) where
    Keeps-send :
        (t : Trip) (request : Request Content) (d : Directory Content)
        → Keeps d.objects (send hashing limiting s t request d).0.objects
    unfolding send serve_requests
    Keeps-send t request d = elim (Bool-cases t.is_sent) [
      | inl sent ↦ rw sent (serve_requests-Keeps hashing s d ((t.conditions, request) ∷ []))
      | inr lost ↦ rw lost (λ id content h. h)
    ]

    acknowledged_created :
        (o : Outcome ℕ (Reply Content))
        → is_acknowledged hashing limiting s (some o) ≡ true
        → o ≡ ok created
    unfolding is_acknowledged
    acknowledged_created (ok created) h = refl
    acknowledged_created (ok (found content)) h = cc
    acknowledged_created (ok (health owner)) h = cc
    acknowledged_created (err status) h = cc

    IsBacked-send :
        HasNoCollisions
        → (t : Trip) (body : Content) (d : Directory Content)
        → is_acknowledged hashing limiting s
            (send hashing limiting s t (put_of hashing limiting s body) d).1
          ≡ true
        → IsBacked
            (send hashing limiting s t (put_of hashing limiting s body) d).0
            (record { id = hashing.sha256_hex body; bytes = hashing.size body })
    unfolding send is_acknowledged put_of
    IsBacked-send unique t body d h =
        let request = put_of hashing limiting s body in
        let sent : t.is_sent ≡ true = ground arith in
        let answered : t.is_answered ≡ true = ground arith in
        let made : (serve_http hashing s t.conditions request d).1 ≡ ok created =
          acknowledged_created (serve_http hashing s t.conditions request d).1
            (rw (sent, answered) at h) in
        let (object, (content, stored, hash)) =
          IsStored-serve_http hashing s t.conditions request d made in
        let own = serve_http_hash hashing s t.conditions request d made in
        rw sent (object, (content, stored, hash ∙ sym own, unique content body (hash ∙ sym own)))

    acknowledge-AreBacked :
        (t : Trip) (o : Object) (b : Bool) (w : World Content)
        → t.leaves_part ≡ false
        → AreBacked w.directory w.manifest
        → (b ≡ true → IsBacked w.directory o)
        → AreBacked
            (acknowledge hashing limiting s t o b w).0.directory
            (acknowledge hashing limiting s t o b w).0.manifest
    unfolding acknowledge line_of
    acknowledge-AreBacked t o false w whole h backed = h
    acknowledge-AreBacked t o true w whole h backed = elim (Bool-cases t.is_written) [
      | inr lost ↦ rw (lost, whole) (rw append-nil h)
      | inl written_line ↦ elim (Bool-cases t.is_synchronised) [
        | inl synchronised ↦
            rw (written_line, synchronised)
              (AreBacked-append w.directory w.manifest o h (backed refl))
        | inr lost ↦
            rw (written_line, lost) (AreBacked-append w.directory w.manifest o h (backed refl))
      ]
    ]

    -- No failing write of the uploads leaves a part of a line.
    abbrev pub LeaveNoPart : List (Trip × Content) → Type 0
    LeaveNoPart [] = Unit
    LeaveNoPart ((t, body) ∷ rest) = (t.leaves_part ≡ false) × LeaveNoPart rest

    upload_object-AreBacked :
        HasNoCollisions
        → (t : Trip) (body : Content) (w : World Content) → t.leaves_part ≡ false
        → AreBacked w.directory w.manifest
        → AreBacked
            (upload_object hashing limiting s t body w).0.directory
            (upload_object hashing limiting s t body w).0.manifest
    unfolding upload_object
    upload_object-AreBacked unique t body w whole h =
        let request = put_of hashing limiting s body in
        let d = (send hashing limiting s t request w.directory).0 in
        acknowledge-AreBacked t (record { id = hashing.sha256_hex body; bytes = hashing.size body })
          (is_acknowledged hashing limiting s (send hashing limiting s t request w.directory).1)
          (record w { directory = d }) whole
          (AreBacked-Keeps w.directory d w.manifest (Keeps-send t request w.directory) h)
          (IsBacked-send unique t body w.directory)

    -- Whatever else fails, each object of the manifest stays backed by the store, and so do new ones.
    pub upload_all-AreBacked :
        HasNoCollisions
        → (uploads : List (Trip × Content)) (w : World Content) → LeaveNoPart uploads
        → AreBacked w.directory w.manifest
        → AreBacked
            (upload_all hashing limiting s uploads w).0.directory
            (upload_all hashing limiting s uploads w).0.manifest
    unfolding upload_all
    upload_all-AreBacked unique [] w whole h = h
    upload_all-AreBacked unique ((t, body) ∷ rest) w (whole, others) h =
        after_bind
          (λ (r : World Content × Outcome CheckError (Unit {0})).
            AreBacked r.0.directory r.0.manifest)
          (upload_object hashing limiting s t body) (λ u. upload_all hashing limiting s rest) w
          (λ e bad. upload_object-AreBacked unique t body w whole h)
          (λ u good.
            upload_all-AreBacked unique rest (upload_object hashing limiting s t body w).0 others
              (upload_object-AreBacked unique t body w whole h))

    pub verify_object_healthy :
        (empty : Content) (t : Trip) (o : Object) (w : World Content)
        → IsHealthy s t
        → IsBacked w.directory o
        → (verify_object hashing limiting s empty t o w).directory ≡ w.directory
          × ((verify_object hashing limiting s empty t o w).failed ≡ w.failed)
    unfolding verify_object send is_verified matches_object
    verify_object_healthy empty t o w healthy (object, (content, stored, hash, size)) =
        let request : Request Content = record {
          path = path_of o.id;
          method = "GET";
          body = empty;
        } in
        let same =
          serve_http-get hashing s t.conditions request w.directory content healthy.slot
            healthy.mounted healthy.opens healthy.stats (health_is_no_object (path_of o.id) object)
            object refl stored in
        let whole : limiting.limit (o.bytes + 1) content ≡ content =
          limiting.limit_all (o.bytes + 1) content (omega (arith, size)) in
        rw (healthy.sent, healthy.answered, same)
          (refl, ground (arith, healthy.read, whole, eq_iff (hashing.sha256_hex content) o.id))
