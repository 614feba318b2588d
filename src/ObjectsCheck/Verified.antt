-- ===== src/ObjectsCheck/Verified.antt =====
-- A verification after an upload, over the store itself (cmd/objects-check/main.go against
-- cmd/objects/main.go).

use edgelab.Shared.Outcome.{ok}
use edgelab.Shared.{
  List, Option, [], arith, false, length, none, refl, some, subst, sym, ℕ, ◌+◌, ◌<◌, ◌==◌, ◌∙◌, ◌∷◌,
  ◌≡◌,
}
use edgelab.ObjectsCheck.Backed.{
  AreBacked, AreBacked-Keeps, LeaveNoPart, HasNoCollisions, IsHealthy, upload_all-AreBacked,
  verify_object_healthy,
}
use edgelab.Objects.Integrity.{serve_requests-Keeps}
use edgelab.Objects.{Hashing, Store, Conditions, Request, serve_requests}
use edgelab.ObjectsCheck.{
  World, Trip, Limiting, Object, upload_all, verify_lines, verify_manifest, verify_object,
}

ne_zero : (n : ℕ) → 0 < n → (n == 0) ≡ false
ne_zero n h = ground arith

module _ {Content : Type 0} (hashing : Hashing Content) (limiting : Limiting hashing) (s : Store)
    (empty : Content) (trips : ℕ → Trip) (healthy : (n : ℕ) → IsHealthy s (trips n)) where
  verify_lines_backed :
      (n : ℕ) (lines : List (Option Object)) (w : World Content)
      → AreBacked hashing w.directory lines
      → 0 < n + length lines
      → ((verify_lines hashing limiting s empty trips n lines w).1 ≡ ok tt)
        × ((verify_lines hashing limiting s empty trips n lines w).0.failed ≡ w.failed)
  unfolding verify_lines
  verify_lines_backed n [] w h some_read = rw (ne_zero n (omega (arith, some_read))) (refl, refl)
  verify_lines_backed n (none ∷ rest) w h some_read = absurd h
  verify_lines_backed n (some o ∷ rest) w (backed, h) some_read =
      let w' = verify_object hashing limiting s empty (trips n) o w in
      let (same, still) =
        verify_object_healthy hashing limiting s empty (trips n) o w (healthy n) backed in
      let (done, kept) =
        verify_lines_backed (n + 1) rest w' (subst (λ d. AreBacked hashing d rest) (sym same) h)
          (omega arith) in
      (done, kept ∙ still)

  -- After uploads, whatever failed in them, and any other requests to the store, a verification whose
  -- requests meet a healthy store finds every acknowledged object, provided that no failing write left
  -- a part of a line in the manifest, that no two contents of one hash differ in size, that the
  -- manifest is not empty and that its objects from before the uploads were backed by the store.
  pub verify_manifest-upload_all :
      HasNoCollisions hashing
      → (uploads : List (Trip × Content)) (others : List (Conditions × Request Content))
        (w : World Content)
      → LeaveNoPart hashing limiting s uploads
      → AreBacked hashing w.directory w.manifest
      → let after = (upload_all hashing limiting s uploads w).0 in
        0 < length after.manifest
        → let later : World Content = record after {
          directory = serve_requests hashing s after.directory others;
          failed = false;
        } in
          ((verify_manifest hashing limiting s empty trips later).1 ≡ ok tt)
          × ((verify_manifest hashing limiting s empty trips later).0.failed ≡ false)
  unfolding verify_manifest
  verify_manifest-upload_all unique uploads others w whole h some_line =
      let after = (upload_all hashing limiting s uploads w).0 in
      let d = serve_requests hashing s after.directory others in
      verify_lines_backed 0 after.manifest (record after { directory = d; failed = false })
        (AreBacked-Keeps hashing after.directory d after.manifest
          (serve_requests-Keeps hashing s after.directory others)
          (upload_all-AreBacked hashing limiting s unique uploads w whole h))
        (omega (arith, some_line))
