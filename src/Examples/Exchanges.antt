-- ===== src/Examples/Exchanges.antt =====
-- A request of the traffic generator that the echo instance answers, and workers that share three
-- attempts.
use edgelab.Shared.Outcome.{ok}
use edgelab.Shared.Table.{Table, lookup, insert}
use edgelab.Shared.{
  List, String, [], arith, false, refl, some, true, ℕ, ◌++◌, ◌∷◌, ◌≡◌, ◌≤◌, Bool, length, ◌+◌,
}
use edgelab.Publication.{text_at}
use edgelab.Storage.{contains}
use edgelab.Traffic.{
  Expectation, Identities, agrees, check_identity, check_line, check_manifest, check_payload,
  check_reply, echo, eof, equal, has_all, max_line, payload, payload_from, read_line, take,
}
use edgelab.Traffic.Exchange.{IsExpected, check_reply-echo, check_reply_ok}
use edgelab.Traffic.Workers.{Pool, Turn, budget, effective, effective-le-budget}
use edgelab.Traffic.Counted.{collect_all_counts, failed_count, total}
use edgelab.Traffic.Summary.{Result, collect, collect_all, count_of, nothing_yet}

abbrev identity : Table String
identity =
    ("app", "echo")
    ∷ ("instance", "one")
    ∷ ("worker", "worker-1")
    ∷ ("region", "north")
    ∷ ("version", "1")
    ∷ []

-- Every identity is written as the two bytes of an empty object.
abbrev json : Identities
json = record { encode = λ m. 123 ∷ 125 ∷ []; decode = λ line. some identity }

abbrev request : Expectation
request = record {
  app = "echo";
  instances = "one" ∷ "two" ∷ [];
  manifest = some (("one", identity) ∷ []);
}

IsExpected-identity : IsExpected json request identity
unfolding contains has_all text_at lookup
IsExpected-identity =
    (refl, refl, λ e. cc, λ e. cc, λ e. cc, (identity, refl, refl, refl, refl, refl))

check_reply-echo_example :
    check_reply json request 7 3 (echo json identity (payload 7 3)) ≡ ok identity
check_reply-echo_example =
    check_reply-echo json request 7 3 identity refl (refl, (refl, tt)) (omega arith)
      IsExpected-identity

abbrev reply : List ℕ
reply = 123 ∷ 125 ∷ 10 ∷ 7 ∷ 8 ∷ 9 ∷ eof

is_accepted : check_reply json request 7 3 reply ≡ ok identity
unfolding check_reply check_line check_identity check_manifest check_payload payload payload_from
    read_line take equal contains has_all agrees text_at lookup
is_accepted = refl

check_reply_ok_example :
    (line : List ℕ) × (read_line max_line reply ≡ some (line, payload 7 3 ++ eof))
    × (json.decode line ≡ some identity)
    × IsExpected json request identity
check_reply_ok_example = check_reply_ok json request 7 3 reply identity is_accepted

abbrev three_workers : Pool
three_workers = record { next = 0; running = true ∷ true ∷ true ∷ []; requested = [] }

abbrev turn : ℕ → Turn
turn n = record { worker = n; is_late = false }

abbrev turns : List Turn
turns = turn 0 ∷ turn 2 ∷ turn 2 ∷ turn 1 ∷ turn 2 ∷ turn 1 ∷ turn 0 ∷ []

effective-le-budget_example : effective 3 turns three_workers ≤ budget 3 three_workers
effective-le-budget_example = effective-le-budget 3 turns three_workers

abbrev result : String → Bool → Bool → Result ℕ
result name is_failed is_timeout = record {
  instance_name = name;
  identity = [];
  millis = 3;
  is_failed = is_failed;
  is_timeout = is_timeout;
}

abbrev results : List (Result ℕ)
results = result "one" false false ∷ result "" true true ∷ result "one" false false ∷ []

is_counted : collect_all nothing_yet results ≡ record {
  latencies = 3 ∷ 3 ∷ 3 ∷ [];
  successes = 2;
  failures = 1;
  timeouts = 1;
  backends = ("one", 2) ∷ [];
  identities = ("one", []) ∷ [];
}
unfolding collect_all collect count_of insert lookup
is_counted = refl

collect_all_counts_example :
    let s = collect_all nothing_yet results in
    (length s.latencies ≡ 3)
    × (s.failures ≡ failed_count results)
    × (s.successes + s.failures ≡ 3)
    × (total s.backends ≡ s.successes)
    × (s.timeouts ≤ 3)
collect_all_counts_example = collect_all_counts results
