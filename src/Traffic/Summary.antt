-- ===== src/Traffic/Summary.antt =====
-- The traffic generator around its requests (cmd/traffic/main.go): its flags, and what it reports of
-- the results.

use edgelab.Traffic.{Expectation, has_all, manifest_fields}
use edgelab.Shared.Table.{Table, insert, lookup}
use edgelab.Shared.Split.{split}
use edgelab.Shared.Outcome.{Outcome, err, expect, fail_if, ok, ◌>>=◌, ◌>>◌}
use edgelab.Shared.{
  Bool, List, Option, String, [], false, if◌then◌else◌, length, ltb, none, not, some, suc, true,
  zero, ℕ, ◌&&◌, ◌++◌, ◌+◌, ◌-◌, ◌==◌, ◌||◌, ◌∷◌,
}

-- The flags that are bounded. All are signed in the code, where none is negative once checked.
pub record TrafficFlags : Type 0 where
  pub count : ℕ
  pub concurrency : ℕ
  pub size : ℕ
  pub is_deadline_positive : Bool
  pub is_duration_negative : Bool

pub data StartError : Type 0 where
  out_of_bounds unreadable_manifest undecodable_manifest incomplete_manifest : StartError

unfoldable pub check_workload : TrafficFlags → Outcome StartError (Unit {0})
check_workload f =
    if ltb f.count 1
      || ltb 4000000 f.count
      || ltb f.concurrency 1
      || ltb 256 f.concurrency
      || ltb 1048576 f.size
      || not f.is_deadline_positive
      || f.is_duration_negative
    then err out_of_bounds
    else ok tt

-- Each instance allowed has all four fields.
unfoldable pub is_complete : List String → Table (Table String) → Bool
is_complete [] manifest = true
is_complete (id ∷ rest) manifest =
    elim (lookup id manifest) [ none ↦ false | some m ↦ has_all manifest_fields m ]
    && is_complete rest manifest

-- The manifest's file, by its content as far as it can be read, and its length and decoded form.
unfoldable pub read_manifest :
    List String
    → Option (ℕ × Option (Table (Table String)))
    → Outcome StartError (Table (Table String))
unfolding is_complete
read_manifest instances content = do
  (bytes, decoded) ← expect unreadable_manifest content
  fail_if (ltb 65536 bytes) unreadable_manifest
  manifest ← expect undecodable_manifest decoded
  fail_if (not (is_complete instances manifest)) incomplete_manifest
  ok manifest

-- What the requests expect; the manifest is optional.
unfoldable pub expectation :
    String
    → String
    → Option (Option (ℕ × Option (Table (Table String))))
    → Outcome StartError Expectation
unfolding read_manifest
expectation app allowed none =
    ok (record { app = app; instances = split b',' allowed; manifest = none })
expectation app allowed (some content) = do
  manifest ← read_manifest (split b',' allowed) content
  ok (record { app = app; instances = split b',' allowed; manifest = some manifest })

-- `result`: whether there is an error, and whether it is a timeout.
pub record Result (Number : Type 0) : Type 0 where
  pub instance_name : String
  pub identity : Table String
  pub millis : Number
  pub is_failed : Bool
  pub is_timeout : Bool

pub record Summary (Number : Type 0) : Type 0 where
  pub latencies : List Number
  pub successes : ℕ
  pub failures : ℕ
  pub timeouts : ℕ
  pub backends : Table ℕ
  pub identities : Table (Table String)

unfoldable pub count_of : String → Table ℕ → ℕ
count_of name m = elim (lookup name m) [ none ↦ 0 | some n ↦ n ]

module _ {Number : Type 0} where
  abbrev pub nothing_yet : Summary Number
  nothing_yet = record {
    latencies = [];
    successes = 0;
    failures = 0;
    timeouts = 0;
    backends = [];
    identities = [];
  }

  unfoldable pub collect : Summary Number → Result Number → Summary Number
  unfolding count_of
  collect s r =
      let timeouts = s.timeouts + (if r.is_timeout then 1 else 0) in
      if r.is_failed
      then record s {
        latencies = s.latencies ++ r.millis ∷ [];
        failures = s.failures + 1;
        timeouts = timeouts;
      }
      else record s {
        latencies = s.latencies ++ r.millis ∷ [];
        successes = s.successes + 1;
        timeouts = timeouts;
        backends = insert r.instance_name (count_of r.instance_name s.backends + 1) s.backends;
        identities = insert r.instance_name r.identity s.identities;
      }

  -- The loop over the results as they come.
  unfoldable pub collect_all : Summary Number → List (Result Number) → Summary Number
  collect_all s [] = s
  collect_all s (r ∷ rest) = collect_all (collect s r) rest

  unfoldable pub get_elem? : List Number → ℕ → Option Number
  get_elem? [] i = none
  get_elem? (x ∷ rest) zero = some x
  get_elem? (x ∷ rest) (suc i) = get_elem? rest i

  -- The latencies are sorted; `index n` is int(float64(n) * p). An index out of range, which would
  -- panic, is none.
  unfoldable pub percentile : Number → (ℕ → ℕ) → List Number → Option Number
  unfolding get_elem?
  percentile zero_ms index [] = some zero_ms
  percentile zero_ms index (x ∷ rest) = get_elem? (x ∷ rest) (index (length (x ∷ rest) - 1))

  unfoldable pub exit_code : Summary Number → ℕ
  exit_code s = if ltb 0 s.failures || s.successes == 0 then 1 else 0
