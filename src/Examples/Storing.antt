-- ===== src/Examples/Storing.antt =====
-- Requests to an object store whose contents are texts, each its own hash.
use edgelab.Objects.{Conditions, publish, serve_requests}
use edgelab.Objects.Reading.{read_after_write}
use edgelab.Shared.Table.{insert, lookup}
use edgelab.Shared.Outcome.{err, ok}
use edgelab.Shared.{String, [], ap, arith, eq_iff, false, len, refl, some, true, ◌∷◌, ◌≡◌}
use edgelab.Objects.Integrity.{IsAddressed, serve_requests-IsAddressed}
use edgelab.Objects.{
  Directory, Hashing, Reply, Request, Store, are_apart, clean_up, created, dispatch, get,
  is_lower_hex, is_object, is_owned_by, owned, put, remove, serve_http, sync_directory, upload,
}

abbrev name : String
name = "0123456789abcdef0123456789abcdef0123456789abcdef0123456789abcdef"

abbrev path : String
path = "/objects/0123456789abcdef0123456789abcdef0123456789abcdef0123456789abcdef"

abbrev plain_hashing : Hashing String
plain_hashing = record { sha256_hex = λ content. content; size = len }

abbrev volume_store : Store
volume_store = record { owner = "instance-1" }

abbrev mounted : Conditions
mounted = record {
  slots_in_use = 0;
  device = some 2;
  parent_device = some 1;
  owner_file = some "instance-1";
  temp_name = ".pending-1";
  fails = λ x. false;
}

abbrev crash_before_sync : Conditions
crash_before_sync = record mounted { fails = λ x. elim x [ sync_directory ↦ true | _ ↦ false ] }

abbrev empty : Directory String
empty = record { objects = []; pending = [] }

abbrev put_of : String → Request String
put_of body = record { path = path; method = "PUT"; body = body }

abbrev stored : Directory String
stored = record { objects = (name, name) ∷ []; pending = [] }

is_created :
    serve_http plain_hashing volume_store mounted (put_of name) empty ≡ (stored, ok created)
unfolding serve_http dispatch get put clean_up upload publish owned are_apart is_owned_by is_object
    is_lower_hex remove lookup insert
is_created = refl

is_mismatch :
    serve_http plain_hashing volume_store mounted (put_of "other") stored ≡ (stored, err 422)
unfolding serve_http dispatch get put clean_up upload publish owned are_apart is_owned_by is_object
    is_lower_hex remove lookup insert
is_mismatch = refl

serve_requests-IsAddressed_example :
    IsAddressed plain_hashing
      (serve_requests plain_hashing volume_store stored
        ((mounted, put_of name) ∷ (mounted, put_of "other") ∷ [])).objects
unfolding lookup
serve_requests-IsAddressed_example =
    serve_requests-IsAddressed plain_hashing volume_store stored
      ((mounted, put_of name) ∷ (mounted, put_of "other") ∷ [])
      (λ id content h. ground (arith, eq_iff name id))

read_after_write_example :
    (content : String) × (content ≡ name)
    × (serve_http plain_hashing volume_store mounted
          (record { path = path; method = "GET"; body = name })
          (serve_requests plain_hashing volume_store
            (serve_http plain_hashing volume_store mounted (put_of name) empty).0
            ((mounted, put_of "other") ∷ []))
        ≡ (
          serve_requests plain_hashing volume_store
              (serve_http plain_hashing volume_store mounted (put_of name) empty).0
              ((mounted, put_of "other") ∷ []),
          ok (Reply.found content),
        ))
unfolding owned are_apart is_owned_by
read_after_write_example =
    read_after_write plain_hashing volume_store mounted mounted (put_of name) empty
      ((mounted, put_of "other") ∷ []) (ap (λ r. r.1) is_created) refl refl refl refl
