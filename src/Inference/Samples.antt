-- ===== src/Inference/Samples.antt =====
-- Tests and instances for src/runtime/inference/facade.py and src/runtime/inference/agent_router.py.
use myknowledgebase.Prelude.{
  not, ℕ, ◌≤◌, ◌≡◌, refl, arith, String, true, false, ◌&&◌, Option, none, some, List, [], ◌∷◌, ◌==◌,
  nat_eq, string_eq, ok, err, all, distinct, contains, fold_ok, if◌then◌else◌,
}
use myknowledgebase.Inference.Gate.{Gate, new_gate, try_acquire, release}
use myknowledgebase.Inference.Leases.{Action, acquires, gives_back, act, Agrees, acts-Agrees}
use myknowledgebase.Inference.Attempts.{
  Entry, lease, interrupts, interrupted, Answer, gives, raises, coded, acquired, given_back, ran,
  slept, recorded, attempts, invoke,
}
use myknowledgebase.Inference.Recorded.{
  is_balanced, operations, records, record_of, Decided, invoke-is_balanced, invoke-records,
}
use myknowledgebase.Inference.Retries.{Reached, invoke-Reached}
use myknowledgebase.Inference.Router.{
  agent_providers, from_keys, rotated, next_fallback_order, attempt_order, chosen_plan, Served,
  Agents, run, try_providers,
}
use myknowledgebase.Inference.Asked.{
  holds_one, providers_asked, is_open, run-holds_one, run-providers_asked,
}
use myknowledgebase.Inference.Chosen.{Serves, run-Serves}

abbrev two_calls : Gate
two_calls = record {
  global_max = 2;
  capability_limits = ("embed", 1) ∷ [];
  global_in_flight = 0;
  by_capability = [];
}

two_calls_test : new_gate 2 (("embed", 1) ∷ []) ≡ some two_calls
unfolding new_gate
two_calls_test = refl

abbrev some_actions : List Action
some_actions =
    acquires "embed"
    ∷ acquires "embed"
    ∷ acquires "generate"
    ∷ acquires "generate"
    ∷ gives_back "embed"
    ∷ []

acts_test :
    fold_ok act (two_calls, []) some_actions
    ≡ ok (
      record two_calls { global_in_flight = 1; by_capability = ("generate", 1) ∷ [] },
      "generate" ∷ [],
    )
unfolding act try_acquire release
acts_test = refl

acts-Agrees_example :
    (s : Gate × List String) × (fold_ok act (two_calls, []) some_actions ≡ ok s) × Agrees s.0 s.1
acts-Agrees_example = acts-Agrees 2 (("embed", 1) ∷ []) some_actions two_calls_test

-- The first attempt fails, the second gives 7.
abbrev second_gives : ℕ → Answer ℕ
second_gives attempt = if attempt == 0 then raises "INFERENCE_TRANSPORT_RETRYABLE" else gives 7

abbrev free : ℕ → Entry
free attempt = lease

second_test : invoke 3 none free second_gives ≡ (
  acquired ∷ ran 0 ∷ given_back ∷ slept 0 ∷ acquired ∷ ran 1 ∷ recorded none ∷ given_back ∷ [],
  ok 7,
)
unfolding invoke attempts
second_test = refl

abbrev never_gives : ℕ → Answer ℕ
never_gives attempt = raises "INFERENCE_TRANSPORT_RETRYABLE"

exhausted_test : (invoke 2 none free never_gives).1 ≡ err (coded "INFERENCE_TRANSPORT_EXHAUSTED")
unfolding invoke attempts
exhausted_test = refl

-- The task is cancelled while the second attempt runs; the lease is given back, and nothing is recorded.
abbrev second_stops : ℕ → Answer ℕ
second_stops attempt = if attempt == 0 then raises "INFERENCE_TRANSPORT_RETRYABLE" else interrupts

stops_test : invoke 3 none free second_stops ≡ (
  acquired ∷ ran 0 ∷ given_back ∷ slept 0 ∷ acquired ∷ ran 1 ∷ given_back ∷ [],
  err interrupted,
)
unfolding invoke attempts
stops_test = refl

seven_test : (invoke 3 none free second_gives).1 ≡ ok 7
unfolding invoke attempts
seven_test = refl

invoke-is_balanced_example : is_balanced false (invoke 3 none free second_gives).0 ≡ true
invoke-is_balanced_example = invoke-is_balanced 3 none free second_gives

invoke-records_example :
    (operations (invoke 3 none free second_gives).0 ≤ 3)
    × Decided free second_gives (invoke 3 none free second_gives).1
    × (records (invoke 3 none free second_gives).0 ≡ record_of (invoke 3 none free second_gives).1)
invoke-records_example = invoke-records 3 none free second_gives (omega arith)

invoke-Reached_example : (◌≡◌ {A = Option String} none none) × Reached second_gives 3 7 0
invoke-Reached_example = invoke-Reached 3 none free second_gives seven_test

-- No agy; claude times out; grok and cursor-agent answer.
abbrev agents : Agents ℕ
agents = record {
  has_transport = λ p. not (p == "agy");
  admits = λ p. true;
  answers = λ p model.
      if p == "claude"
      then raises "CLAUDE_CLI_TIMEOUT"
      else gives (record { reply = 7; model = none });
  primary_model = "minimax-m3";
}

order_test :
    attempt_order none 3 ("grok" ∷ "claude" ∷ "cursor-agent" ∷ "claude" ∷ "agy" ∷ [])
    ≡ ("claude" ∷ "agy" ∷ "cursor-agent" ∷ "grok" ∷ [], 4)
unfolding attempt_order next_fallback_order from_keys rotated
order_test = refl

abbrev by_grok : Served ℕ
by_grok = record {
  reply = 7;
  provider = "grok";
  model = none;
  attempt_ordinal = 2;
  fallback_from = some "agy";
  fallback_reason = some "CLAUDE_CLI_TIMEOUT";
}

grok_test : (run agents agent_providers none 1 none none).1 ≡ ok by_grok
unfolding run try_providers attempt_order next_fallback_order from_keys rotated
grok_test = refl

run-holds_one_example : holds_one none (run agents agent_providers none 1 none none).0 ≡ true
run-holds_one_example = run-holds_one agents agent_providers none 1 none none

run-providers_asked_example :
    (distinct (providers_asked (run agents agent_providers none 1 none none).0) ≡ true)
    × (all
          (λ p.
            (contains (chosen_plan none agent_providers) p && contains agent_providers p)
            && is_open agents p)
          (providers_asked (run agents agent_providers none 1 none none).0)
        ≡ true)
run-providers_asked_example = run-providers_asked agents agent_providers none 1 none none

run-Serves_example :
    Serves agents none by_grok
      (attempt_order none 1 (chosen_plan none agent_providers)).0
      0
      none
      none
run-Serves_example = run-Serves agents agent_providers none 1 none none grok_test
