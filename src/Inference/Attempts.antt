-- ===== src/Inference/Attempts.antt =====
-- `_invoke` and `_legacy_call` of src/runtime/inference/facade.py. What the gate and the adapter answer
-- are functions of the attempt; a run gives the calls that it makes, in order, and its result.
use myknowledgebase.Prelude.{
  ℕ, zero, suc, ◌+◌, String, Bool, true, false, not, ◌&&◌, ◌||◌, Option, none, some, List, [], ◌∷◌,
  ◌==◌, string_eq, nat_eq, Result, ok, err, ltb, if◌then◌else◌,
}

-- What an operation, with the validation of its result, gives or raises: an error with a code, another
-- exception, or the cancellation of its task.
pub data Answer {ℓ} (R : Type ℓ) : Type ℓ where
  gives : R → Answer R
  raises : (code : String) → Answer R
  breaks : Answer R
  interrupts : Answer R

-- What a task that asks for a lease gets; before a retry it sleeps first, and it may be cancelled while it
-- waits.
pub data Entry : Type 0 where
  lease full cancelled : Entry

pub data Failure : Type 0 where
  coded : (code : String) → Failure
  broken : Failure
  out_of_attempts : Failure
  interrupted : Failure

-- The calls: of the gate, with its answer, of the operation in an attempt, of `_sleep`, and of the
-- recorder, with the error code or none.
pub data Call : Type 0 where
  acquired refused given_back : Call
  ran slept : (attempt : ℕ) → Call
  recorded : (error_code : Option String) → Call

abbrev pub Run {ℓ} : Type ℓ → Type ℓ
Run R = List Call × Result Failure R

module _ {ℓ} {R : Type ℓ} where
  abbrev pub then_run : Call → Run R → Run R
  then_run c r = (c ∷ r.0, r.1)

  -- A failure that is recorded and raised, with the lease given back.
  abbrev pub failed_with : String → Run R
  failed_with code = (recorded (some code) ∷ (given_back ∷ []), err (coded code))

  -- A failure that is recorded and raised with no lease.
  abbrev pub backpressure : Run R
  backpressure = (
    refused ∷ (recorded (some "INFERENCE_BACKPRESSURE") ∷ []),
    err (coded "INFERENCE_BACKPRESSURE"),
  )

  -- A retry asks for a lease again.
  abbrev pub retried : Entry → Run R → Run R
  retried lease rest = then_run acquired rest
  retried full rest = backpressure
  retried cancelled rest = ([], err interrupted)

  abbrev pub raised : ℕ → ℕ → Entry → String → Run R → Run R
  raised max_attempts attempt admitted code rest =
      if code == "INFERENCE_SPACE_VIOLATION"
      then failed_with code
      else if (code == "INFERENCE_TRANSPORT_RETRYABLE") && ltb (attempt + 1) max_attempts
      then then_run given_back (then_run (slept attempt) (retried admitted rest))
      else if code == "INFERENCE_TRANSPORT_RETRYABLE"
      then failed_with "INFERENCE_TRANSPORT_EXHAUSTED"
      else failed_with code

  -- What follows the answer of an attempt, with what a further attempt would do.
  abbrev pub answered : ℕ → ℕ → Entry → Answer R → Run R → Run R
  answered max_attempts attempt admitted (gives result) rest =
      (recorded none ∷ (given_back ∷ []), ok result)
  answered max_attempts attempt admitted breaks rest = failed_with "INFERENCE_INTERNAL_UNEXPECTED"
  answered max_attempts attempt admitted interrupts rest = (given_back ∷ [], err interrupted)
  answered max_attempts attempt admitted (raises code) rest =
      raised max_attempts attempt admitted code rest

  -- The loop, with the attempts that are left; it starts with a lease.
  unfoldable pub attempts : ℕ → (ℕ → Entry) → (ℕ → Answer R) → ℕ → ℕ → Run R
  attempts max_attempts admits answers zero attempt = (given_back ∷ [], err out_of_attempts)
  attempts max_attempts admits answers (suc left) attempt = then_run (ran attempt) (
      answered max_attempts attempt (admits (suc attempt)) (answers attempt)
        (attempts max_attempts admits answers left (suc attempt)))

  -- `_invoke`, with what `_preflight` raises.
  unfoldable pub invoke : ℕ → Option String → (ℕ → Entry) → (ℕ → Answer R) → Run R
  invoke max_attempts (some code) admits answers = (recorded (some code) ∷ [], err (coded code))
  invoke max_attempts none admits answers =
      retried (admits 0) (attempts max_attempts admits answers max_attempts 0)

  abbrev pub legacy_raised : ℕ → ℕ → String → Run R → Run R
  legacy_raised max_attempts attempt code rest =
      if not (code == "INFERENCE_TRANSPORT_RETRYABLE") || (suc attempt == max_attempts)
      then (
        given_back ∷ [],
        err (
            coded (
              if code == "INFERENCE_TRANSPORT_RETRYABLE"
              then "INFERENCE_TRANSPORT_EXHAUSTED"
              else code)),
      )
      else then_run (slept attempt) rest

  abbrev pub legacy_answered : ℕ → ℕ → Answer R → Run R → Run R
  legacy_answered max_attempts attempt (gives result) rest = (given_back ∷ [], ok result)
  legacy_answered max_attempts attempt breaks rest = (given_back ∷ [], err broken)
  legacy_answered max_attempts attempt interrupts rest = (given_back ∷ [], err interrupted)
  legacy_answered max_attempts attempt (raises code) rest =
      legacy_raised max_attempts attempt code rest

  unfoldable pub legacy_attempts : ℕ → (ℕ → Answer R) → ℕ → ℕ → Run R
  legacy_attempts max_attempts answers zero attempt = (given_back ∷ [], err out_of_attempts)
  legacy_attempts max_attempts answers (suc left) attempt = then_run (ran attempt) (
      legacy_answered max_attempts attempt (answers attempt)
        (legacy_attempts max_attempts answers left (suc attempt)))

  -- `_legacy_call`
  unfoldable pub legacy_call : ℕ → Bool → (ℕ → Answer R) → Run R
  legacy_call max_attempts false answers = (refused ∷ [], err (coded "INFERENCE_BACKPRESSURE"))
  legacy_call max_attempts true answers =
      then_run acquired (legacy_attempts max_attempts answers max_attempts 0)
