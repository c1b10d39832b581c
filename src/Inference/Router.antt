-- ===== src/Inference/Router.antt =====
-- `AgentCliRouter` of src/runtime/inference/agent_router.py. What the transports and the gate answer are
-- functions of the provider; a run gives the calls that it makes, in order, and its result.
use myknowledgebase.Prelude.{
  ℕ, zero, suc, ◌+◌, ◌%◌, String, Bool, not, ◌&&◌, ◌||◌, Option, none, some, List, [], ◌∷◌, ◌++◌,
  ◌==◌, string_eq, Result, ok, err, all, keep, length, leb, contains, if◌then◌else◌,
}
use myknowledgebase.Process.Row.{truthy}
use myknowledgebase.Inference.Attempts.{
  Answer, gives, raises, breaks, interrupts, interrupted, Failure, coded, broken,
}

abbrev pub agent_providers : List String
agent_providers = "claude" ∷ ("agy" ∷ ("cursor-agent" ∷ ("grok" ∷ [])))

abbrev pub is_fallback : String → Bool
is_fallback provider = (provider == "cursor-agent") || (provider == "grok")

abbrev pub is_primary : String → Bool
is_primary provider = (provider == "claude") || (provider == "agy")

abbrev pub is_fallbackable : String → Bool
is_fallbackable code =
    (code == "INFERENCE_BACKPRESSURE")
    || ((code == "INFERENCE_TRANSPORT_RETRYABLE")
        || ((code == "INFERENCE_TRANSPORT_EXHAUSTED")
            || ((code == "CLAUDE_CLI_TIMEOUT") || (code == "CLAUDE_CLI_TRANSPORT_FAILED"))))

-- `tuple(dict.fromkeys(...))`
unfoldable pub from_keys : List String → List String
from_keys [] = []
from_keys (x ∷ xs) = x ∷ keep (λ y. not (x == y)) (from_keys xs)

abbrev pub checked_plan : List String → Option (List String)
checked_plan [] = none
checked_plan (p ∷ ps) =
    if not (all (contains agent_providers) (p ∷ ps))
    then none
    else if not (contains (p ∷ ps) "claude")
    then none
    else some (p ∷ ps)

-- The plan that `__init__` keeps, which raises a `ValueError`.
unfoldable pub new_plan : Bool → List String → Option (List String)
new_plan primary_is_blank provider_plan =
    if primary_is_blank then none else checked_plan (from_keys provider_plan)

abbrev pub skip : ℕ → List String → List String
skip zero xs = xs
skip (suc n) [] = []
skip (suc n) (x ∷ xs) = skip n xs

abbrev pub first : ℕ → List String → List String
first zero xs = []
first (suc n) [] = []
first (suc n) (x ∷ xs) = x ∷ first n xs

unfoldable pub rotated : ℕ → List String → List String
rotated start tail = skip start tail ++ first start tail

abbrev pub starting_at : Option ℕ → ℕ → List String → List String × ℕ
starting_at (some cursor) index tail = (rotated (cursor % length tail) tail, index)
starting_at none index tail = (rotated (index % length tail) tail, index + 1)

-- `_next_fallback_order`, with what the cursor gives where there is one; also the next index.
unfoldable pub next_fallback_order : Option ℕ → ℕ → List String → List String × ℕ
next_fallback_order cursor index plan =
    if leb (length (keep is_fallback plan)) 1
    then (keep is_fallback plan, index)
    else starting_at cursor index (keep is_fallback plan)

-- `request.provider_plan or self.provider_plan`
abbrev pub chosen_plan : Option (List String) → List String → List String
chosen_plan (some (p ∷ ps)) own = p ∷ ps
chosen_plan _ own = own

-- `_attempt_order`
unfoldable pub attempt_order : Option ℕ → ℕ → List String → List String × ℕ
attempt_order cursor index plan = (
  from_keys (keep is_primary plan ++ (next_fallback_order cursor index plan).0),
  (next_fallback_order cursor index plan).1,
)

-- The calls of a run.
pub data Step : Type 0 where
  unavailable refused acquired given_back : (provider : String) → Step
  asked : (provider : String) → (model : Option String) → Step

-- What a transport gives, and the model that it names.
pub record Reply {ℓ} (R : Type ℓ) : Type ℓ where
  pub reply : R
  pub model : Option String

pub record Served {ℓ} (R : Type ℓ) : Type ℓ where
  pub reply : R
  pub provider : String
  pub model : Option String
  pub attempt_ordinal : ℕ
  pub fallback_from : Option String
  pub fallback_reason : Option String

-- The transports, the gate and the primary model.
pub record Agents {ℓ} (R : Type ℓ) : Type ℓ where
  pub has_transport : String → Bool
  pub admits : String → Bool
  pub answers : String → Option String → Answer (Reply R)
  pub primary_model : String

abbrev pub effective_model : String → String → Option String → Option String
effective_model primary provider model =
    if (provider == "claude") && not (truthy model)
    then some primary
    else if not (provider == "claude") && truthy model
    then none
    else model

abbrev pub model_or : Option String → Option String → Option String
model_or own effective = if truthy own then own else effective

-- A provider ends the run, or passes it on with the error so far.
pub data Turn {ℓ} (R : Type ℓ) : Type ℓ where
  ends : List Step → Result Failure (Served R) → Turn R
  passes : List Step → (reason : Option String) → (error_code : String) → Turn R

abbrev pub RouterRun {ℓ} : Type ℓ → Type ℓ
RouterRun R = List Step × Result Failure (Served R)

module _ {ℓ} {R : Type ℓ} where
  abbrev pub answer_turn :
      String → Option String → ℕ → Option String → Option String → Answer (Reply R) → Turn R
  answer_turn provider model ordinal previous reason (gives r) =
      ends (acquired provider ∷ (asked provider model ∷ (given_back provider ∷ []))) (
        ok (record {
          reply = r.reply;
          provider = provider;
          model = model_or r.model model;
          attempt_ordinal = ordinal;
          fallback_from = previous;
          fallback_reason = reason;
        }))
  answer_turn provider model ordinal previous reason breaks =
      ends (acquired provider ∷ (asked provider model ∷ (given_back provider ∷ []))) (err broken)
  answer_turn provider model ordinal previous reason interrupts =
      ends (acquired provider ∷ (asked provider model ∷ (given_back provider ∷ [])))
        (err interrupted)
  answer_turn provider model ordinal previous reason (raises code) =
      if not (is_fallbackable code)
      then ends (acquired provider ∷ (asked provider model ∷ (given_back provider ∷ [])))
          (err (coded code))
      else passes (acquired provider ∷ (asked provider model ∷ (given_back provider ∷ [])))
          (some code) code

  -- The body of the loop.
  abbrev pub turn : Agents R → Option String → String → ℕ → Option String → Option String → Turn R
  turn agents model provider ordinal previous reason =
      if not (agents.has_transport provider)
      then passes (unavailable provider ∷ []) reason "CLAUDE_CLI_TRANSPORT_FAILED"
      else if not (agents.admits provider)
      then passes (refused provider ∷ []) reason "INFERENCE_BACKPRESSURE"
      else answer_turn provider (effective_model agents.primary_model provider model) ordinal
          previous reason
          (agents.answers provider (effective_model agents.primary_model provider model))

  abbrev pub go_on : Turn R → (Option String → String → RouterRun R) → RouterRun R
  go_on (ends steps result) rest = (steps, result)
  go_on (passes steps reason code) rest = (steps ++ (rest reason code).0, (rest reason code).1)

  -- The loop over the providers; the error is the last one so far.
  unfoldable pub try_providers :
      Agents R
      → Option String
      → List String
      → ℕ
      → Option String
      → Option String
      → String
      → RouterRun R
  try_providers agents model [] ordinal previous reason code = ([], err (coded code))
  try_providers agents model (p ∷ ps) ordinal previous reason code =
      go_on (turn agents model p ordinal previous reason)
        (try_providers agents model ps (suc ordinal) (some p))

  -- `run`, on a request with a model and perhaps a plan.
  unfoldable pub run :
      Agents R → List String → Option ℕ → ℕ → Option String → Option (List String) → RouterRun R
  run agents own_plan cursor index model provider_plan =
      try_providers agents model (attempt_order cursor index (chosen_plan provider_plan own_plan)).0
        0 none none "CLAUDE_CLI_TRANSPORT_FAILED"
