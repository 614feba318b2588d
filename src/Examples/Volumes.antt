-- ===== src/Examples/Volumes.antt =====
-- A volume that is created in a pool with room: sizes are whole bytes and percentages whole numbers.
use edgelab.Shared.Outcome.{ok}
use edgelab.Shared.Split.{split}
use edgelab.Shared.{
  [], false, leb, none, refl, some, ◌*◌, ◌+◌, ◌/◌, ◌==◌, ◌∷◌, ◌≡◌, ◌⊎◌, ℕ, str_append, str_eq,
  String, if◌then◌else◌, true,
}
use edgelab.Storage.Digest.{
  Found, Listing, Printing, next_entry, after_visit, cons, digest_records, directory, enter,
  entry_path, leave, nil, read_regular, records_of, regular, tree_digest, visit_file, visit_folder,
  walk,
}
use edgelab.Storage.Unmarked.{Alike, ends, is_left_out, keeps, left, tree_digest-Alike}
use edgelab.Shared.Table.{insert}
use edgelab.Storage.{
  Floats, Limits, LogicalVolume, Tools, capacity, contains, find_volume, found_valid, has_size,
  inspect, is_ours, validate, within_limits,
}
use edgelab.Storage.Created.{HasRoom, create_guarded}
use edgelab.Storage.Creation.{create, create_if_absent, create_new}

abbrev pub whole : Floats ℕ
whole = record {
  parse = λ s. if str_eq s "0.00" then some 0 else some 268435456;
  of_nat = λ n. n;
  add = λ a b. a + b;
  mul = λ a b. a * b;
  div = λ a b. a / b;
  ge = λ a b. leb b a;
  eq = λ a b. a == b;
}

abbrev pub limits : Limits ℕ
limits = record { pool_uuid = "pool-uuid"; data_limit = 80; metadata_limit = 80 }

abbrev pub pool : LogicalVolume
pool = record {
  name = "pool";
  uuid = "pool-uuid";
  tags = "";
  pool = "";
  origin = "";
  attributes = "twi-aotz--";
  size = "268435456.00";
  data_percent = "0.00";
  metadata_percent = "0.00";
}

abbrev pub volume : String → String → String → LogicalVolume
volume name tag origin = record {
  name = name;
  uuid = name;
  tags = str_append tag ",edgelab_worker";
  pool = "pool";
  origin = origin;
  attributes = "Vwi-a-tz--";
  size = "268435456.00";
  data_percent = "0.00";
  metadata_percent = "";
}

abbrev pub tools : Tools
tools = record {
  fails = λ tool. false;
  created = λ name tag origin volumes. volume name tag origin ∷ volumes;
  resolve = λ device. device;
}

is_created :
    create whole limits tools "image_a" "image_abc" "" (pool ∷ [])
    ≡ (volume "image_a" "image_abc" "" ∷ pool ∷ [], ok (volume "image_a" "image_abc" ""))
unfolding create create_if_absent create_new capacity inspect within_limits found_valid validate
    is_ours has_size find_volume contains split
is_created = refl

create_guarded_example :
    ((create whole limits tools "image_a" "image_abc" "" (pool ∷ [])).0 ≡ pool ∷ [])
    ⊎ ((find_volume "image_a" (pool ∷ []) ≡ none)
        × HasRoom whole limits tools (pool ∷ [])
        × ((create whole limits tools "image_a" "image_abc" "" (pool ∷ [])).0
            ≡ tools.created "image_a" "image_abc" "" (pool ∷ [])))
create_guarded_example = create_guarded whole limits tools "image_a" "image_abc" "" (pool ∷ [])

-- Contents are texts, each its own hash; the JSON has no more than the first value.
abbrev print : Printing String
print = record {
  octal = λ n. if n == 420 then "644" else "755";
  digest = λ s. s;
  marshal = λ m. elim m [ [] ↦ some "" | (key, value) ∷ rest ↦ some value ];
}

abbrev notes : Found String
notes = regular (some 420) (some "hello")

abbrev marker : Found String
marker = regular (some 384) (some "{}")

abbrev plain_root : Listing String
plain_root = cons "notes" notes nil

abbrev marked_root : Listing String
marked_root =
    cons ".edgelab-image.json" marker
      (cons "lost+found" (directory (some 448) false nil) (cons "notes" notes nil))

is_digest : tree_digest print (some (directory (some 493) true marked_root)) ≡ ok "644:hello"
unfolding tree_digest records_of digest_records walk enter next_entry leave after_visit visit_folder
    visit_file read_regular entry_path insert
is_digest = refl

marked-Alike : Alike marked_root plain_root
unfolding is_left_out
marked-Alike =
    left ".edgelab-image.json" marker refl
      (left "lost+found" (directory (some 448) false nil) refl (keeps "notes" notes ends))

tree_digest-Alike_example :
    tree_digest print (some (directory (some 493) true marked_root))
    ≡ tree_digest print (some (directory (some 493) true plain_root))
tree_digest-Alike_example =
    tree_digest-Alike print marked_root plain_root (some 493) (some 493) marked-Alike
