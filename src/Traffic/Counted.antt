-- ===== src/Traffic/Counted.antt =====
-- What the report of the traffic generator says of its results (cmd/traffic/main.go).
use edgelab.Shared.Table.{Table, insert, lookup}
use edgelab.Shared.{
  Bool-cases, List, String, [], arith, if◌then◌else◌, inl, inr, length, length-append, refl, some,
  suc, zero, ℕ, ◌+◌, ◌-◌, ◌<◌, ◌↔◌, ◌∷◌, ◌≡◌, ◌≤◌,
}
use edgelab.Traffic.Summary.{
  Result, Summary, collect, collect_all, count_of, exit_code, get_elem?, nothing_yet, percentile,
}

-- The requests that the table counts.
abbrev pub total : Table ℕ → ℕ
total [] = 0
total ((name, n) ∷ rest) = n + total rest

total-insert :
    (name : String) (m : Table ℕ) → total (insert name (count_of name m + 1) m) ≡ total m + 1
unfolding insert count_of lookup
total-insert name [] = refl
total-insert name ((key, n) ∷ rest) = ground (arith, total-insert name rest)

module _ {Number : Type 0} where
  abbrev pub failed_count : List (Result Number) → ℕ
  failed_count [] = 0
  failed_count (r ∷ rest) = (if r.is_failed then 1 else 0) + failed_count rest

  collect_counts :
      (s : Summary Number) (r : Result Number)
      → ((collect s r).failures ≡ s.failures + (if r.is_failed then 1 else 0))
        × ((collect s r).successes + (if r.is_failed then 1 else 0) ≡ s.successes + 1)
        × (length (collect s r).latencies ≡ length s.latencies + 1)
        × (total (collect s r).backends + s.successes ≡ total s.backends + (collect s r).successes)
        × ((collect s r).timeouts ≤ s.timeouts + 1)
  unfolding collect
  collect_counts s r = elim (Bool-cases r.is_failed) [
    | inl failed ↦ (
      ground arith,
      ground arith,
      ground (arith, length-append s.latencies (r.millis ∷ [])),
      ground arith,
      ground arith,
    )
    | inr good ↦ (
      ground arith,
      ground arith,
      ground (arith, length-append s.latencies (r.millis ∷ [])),
      ground (arith, total-insert r.instance_name s.backends),
      ground arith,
    )
  ]

  -- From a summary on, every result is counted once.
  collect_all_from :
      (s : Summary Number) (rs : List (Result Number))
      → let after = collect_all s rs in
        (after.failures ≡ s.failures + failed_count rs)
        × (after.successes + failed_count rs ≡ s.successes + length rs)
        × (length after.latencies ≡ length s.latencies + length rs)
        × (total after.backends + s.successes ≡ total s.backends + after.successes)
        × (after.timeouts ≤ s.timeouts + length rs)
  unfolding collect_all
  collect_all_from s [] = omega arith
  collect_all_from s (r ∷ rest) =
      let (f, g, l, b, t) = collect_counts s r in
      let (f', g', l', b', t') = collect_all_from (collect s r) rest in
      (
        omega (arith, f, f'),
        omega (arith, g, g'),
        omega (arith, l, l'),
        omega (arith, b, b'),
        omega (arith, t, t'),
      )

  failed_count-le : (rs : List (Result Number)) → failed_count rs ≤ length rs
  failed_count-le [] = omega arith
  failed_count-le (r ∷ rest) = ground (arith, failed_count-le rest)

  -- Each result is counted once: as many latencies as results, each a success or a failure, the
  -- successes divided among the instances, and no more timeouts than results.
  pub collect_all_counts :
      (rs : List (Result Number))
      → let s = collect_all nothing_yet rs in
        (length s.latencies ≡ length rs)
        × (s.failures ≡ failed_count rs)
        × (s.successes + s.failures ≡ length rs)
        × (total s.backends ≡ s.successes)
        × (s.timeouts ≤ length rs)
  collect_all_counts rs =
      let (f, g, l, b, t) = collect_all_from nothing_yet rs in
      (omega (arith, l), omega (arith, f), omega (arith, f, g), omega (arith, b), omega (arith, t))

  -- The generator exits with 0 exactly if it has a result and none has failed.
  exit_code_iff :
      (rs : List (Result Number))
      → (exit_code (collect_all nothing_yet rs) ≡ 0) ↔ ((0 < length rs) × (failed_count rs ≡ 0))
  unfolding exit_code
  exit_code_iff rs =
      let s = collect_all nothing_yet rs in
      let (l, f, both, b, t) = collect_all_counts rs in
      (
        λ h.
            let none_failed : s.failures ≡ 0 = ground arith in
            let some_good : 0 < s.successes = ground arith in
            (omega (arith, both, some_good), omega (arith, f, none_failed)),
        λ (some_result, none_failed).
            let no_failure : s.failures ≡ 0 = omega (arith, f, none_failed) in
            let some_good : 0 < s.successes = omega (arith, both, no_failure, some_result) in
            ground (arith, no_failure, some_good),
      )

  get_elem?-lt :
      (xs : List Number) (i : ℕ) → i < length xs → (v : Number) × (get_elem? xs i ≡ some v)
  unfolding get_elem?
  get_elem?-lt [] i h = absurd (omega arith)
  get_elem?-lt (x ∷ rest) zero h = (x, refl)
  get_elem?-lt (x ∷ rest) (suc i) h = get_elem?-lt rest i (omega arith)

  -- No percentile is out of range, whatever the rounding, as long as the index of a share of n is at
  -- most n.
  percentile_total :
      (zero_ms : Number) (index : ℕ → ℕ) (latencies : List Number)
      → ((n : ℕ) → index n ≤ n)
      → (v : Number) × (percentile zero_ms index latencies ≡ some v)
  unfolding percentile
  percentile_total zero_ms index [] h = (zero_ms, refl)
  percentile_total zero_ms index (x ∷ rest) h =
      get_elem?-lt (x ∷ rest) (index (length (x ∷ rest) - 1))
        (omega (arith, h (length (x ∷ rest) - 1)))
