-- ===== src/Examples/Acknowledgements.antt =====
-- Two contents of at most one byte, uploaded to the object store and verified: one response is lost.
use edgelab.Shared.{
  str_eq, String, List, ℕ, Bool, true, false, [], ◌∷◌, ◌≡◌, ◌<◌, ◌≤◌, refl, arith, some, ap, zero,
  suc, length,
}
use edgelab.Shared.Outcome.{ok}
use edgelab.Objects.{
  Conditions, Hashing, Store, serve_requests, serve_http, dispatch, get, put, clean_up, upload,
  publish, owned, are_apart, is_owned_by, is_object, is_lower_hex, remove,
}
use edgelab.Shared.Table.{insert, lookup}
use edgelab.ObjectsCheck.{
  line_of, Limiting, Trip, World, upload_all, verify_manifest, upload_object, send, is_acknowledged,
  acknowledge, put_of, path_of,
}
use edgelab.ObjectsCheck.Backed.{HasNoCollisions, IsHealthy}
use edgelab.ObjectsCheck.Verified.{verify_manifest-upload_all}

data Content : Type 0 where
  nothing byte : Content

abbrev size_of : Content → ℕ
size_of nothing = 0
size_of byte = 1

abbrev hash_of : Content → String
hash_of nothing = "e3b0c44298fc1c149afbf4c8996fb92427ae41e4649b934ca495991b7852b855"
hash_of byte = "6e340b9cffb37a989ca544e6bb780a2c78901d3fb33738768511a30617afa01d"

abbrev hashing : Hashing Content
hashing = record { sha256_hex = hash_of; size = size_of }

abbrev limit_of : ℕ → Content → Content
limit_of zero c = nothing
limit_of (suc n) c = c

limit_all_of : (n : ℕ) (c : Content) → size_of c ≤ n → limit_of n c ≡ c
limit_all_of zero nothing h = refl
limit_all_of zero byte h = absurd (omega arith)
limit_all_of (suc n) c h = refl

limit_cut_of : (n : ℕ) (c : Content) → n < size_of c → size_of (limit_of n c) ≡ n
limit_cut_of zero c h = refl
limit_cut_of (suc n) nothing h = absurd (omega arith)
limit_cut_of (suc n) byte h = absurd (omega arith)

abbrev limiting : Limiting hashing
limiting = record { limit = limit_of; limit_all = limit_all_of; limit_cut = limit_cut_of }

HasNoCollisions-hashing : HasNoCollisions hashing
HasNoCollisions-hashing nothing nothing h = refl
HasNoCollisions-hashing byte byte h = refl
HasNoCollisions-hashing nothing byte h = absurd (cc (ap (λ s. str_eq s (hash_of byte)) h))
HasNoCollisions-hashing byte nothing h = absurd (cc (ap (λ s. str_eq s (hash_of byte)) h))

abbrev volume_store : Store
volume_store = record { owner = "instance-1" }

abbrev mounted : Conditions
mounted = record {
  slots_in_use = 0;
  device = some 2;
  parent_device = some 1;
  owner_file = some "instance-1";
  temp_name = ".pending-1";
  fails = λ x. false;
}

abbrev trip : Bool → Trip
trip is_answered = record {
  is_sent = true;
  conditions = mounted;
  is_answered = is_answered;
  is_read = true;
  is_written = true;
  is_synchronised = true;
  leaves_part = false;
}

IsHealthy-trip : IsHealthy volume_store (trip true)
unfolding owned are_apart is_owned_by
IsHealthy-trip = record {
  sent = refl;
  answered = refl;
  read = refl;
  slot = refl;
  mounted = refl;
  opens = refl;
  stats = refl;
}

abbrev uploads : List (Trip × Content)
uploads = (trip true, byte) ∷ (trip false, nothing) ∷ []

abbrev before : World Content
before = record { directory = record { objects = []; pending = [] }; manifest = []; failed = false }

abbrev after : World Content
after = record {
  directory = record {
    objects = (hash_of byte, byte) ∷ (hash_of nothing, nothing) ∷ [];
    pending = [];
  };
  manifest = some (record { id = hash_of byte; bytes = 1 }) ∷ [];
  failed = true;
}

is_uploaded : (upload_all hashing limiting volume_store uploads before).0 ≡ after
unfolding line_of upload_all upload_object send is_acknowledged acknowledge put_of path_of
    serve_http dispatch get put clean_up upload publish owned are_apart is_owned_by is_object
    is_lower_hex remove lookup insert
is_uploaded = refl

verify_manifest-upload_all_example :
    let reached = (upload_all hashing limiting volume_store uploads before).0 in
    let later : World Content = record reached {
      directory = serve_requests hashing volume_store reached.directory [];
      failed = false;
    } in
    ((verify_manifest hashing limiting volume_store nothing (λ n. trip true) later).1 ≡ ok tt)
    × ((verify_manifest hashing limiting volume_store nothing (λ n. trip true) later).0.failed
        ≡ false)
verify_manifest-upload_all_example =
    verify_manifest-upload_all hashing limiting volume_store nothing (λ n. trip true)
      (λ n. IsHealthy-trip) HasNoCollisions-hashing uploads [] before (refl, (refl, tt)) tt
      (omega (arith, ap (λ w. length w.manifest) is_uploaded))
