-- ===== src/Inference/Recorded.antt =====
-- What the calls of an invocation of src/runtime/inference/facade.py have in common.
use myknowledgebase.Prelude.{
  Bool-cases, inl, inr, ◌==◌, ltb, ℕ, zero, suc, ◌+◌, ◌≤◌, ◌≡◌, refl, String, Bool, true, false,
  not, ◌&&◌, Option, none, some, List, [], ◌∷◌, string_eq, nat_eq, Result, ok, err, arith,
}
use myknowledgebase.Inference.Attempts.{
  gives, raises, breaks, Run, retried, answered, interrupts, Entry, lease, full, cancelled,
  interrupted, Answer, Failure, coded, broken, out_of_attempts, Call, acquired, refused, given_back,
  ran, slept, recorded, attempts, invoke,
}

-- Whether calls, begun with or without a lease, ask for a lease when they have none, run the operation
-- under a lease, sleep without one, and end without one.
abbrev pub is_balanced : Bool → List Call → Bool
is_balanced has_lease [] = not has_lease
is_balanced has_lease (acquired ∷ calls) = not has_lease && is_balanced true calls
is_balanced has_lease (refused ∷ calls) = not has_lease && is_balanced false calls
is_balanced has_lease (given_back ∷ calls) = has_lease && is_balanced false calls
is_balanced has_lease (ran attempt ∷ calls) = has_lease && is_balanced true calls
is_balanced has_lease (slept attempt ∷ calls) = not has_lease && is_balanced false calls
is_balanced has_lease (recorded code ∷ calls) = is_balanced has_lease calls

-- The operations that ran, and what was recorded.
abbrev pub operations : List Call → ℕ
operations [] = 0
operations (ran attempt ∷ calls) = suc (operations calls)
operations (acquired ∷ calls) = operations calls
operations (refused ∷ calls) = operations calls
operations (given_back ∷ calls) = operations calls
operations (slept attempt ∷ calls) = operations calls
operations (recorded code ∷ calls) = operations calls

abbrev pub records : List Call → List (Option String)
records [] = []
records (recorded code ∷ calls) = code ∷ records calls
records (acquired ∷ calls) = records calls
records (refused ∷ calls) = records calls
records (given_back ∷ calls) = records calls
records (ran attempt ∷ calls) = records calls
records (slept attempt ∷ calls) = records calls

module _ {ℓ} {R : Type ℓ} where
  -- The record that fits a result.
  abbrev pub record_of : Result Failure R → List (Option String)
  record_of (ok result) = none ∷ []
  record_of (err (coded code)) = some code ∷ []
  record_of (err broken) = []
  record_of (err out_of_attempts) = []
  record_of (err interrupted) = []

  -- A result, an error with a code, or the cancellation of the task while it waited for a lease or for
  -- the answer of some attempt.
  pub data Decided (admits : ℕ → Entry) (answers : ℕ → Answer R) : Result Failure R → Type ℓ where
    by_result : (result : R) → Decided admits answers (ok result)
    by_code : (code : String) → Decided admits answers (err (coded code))
    by_cancelled_entry :
        (attempt : ℕ) → admits attempt ≡ cancelled → Decided admits answers (err interrupted)
    by_cancelled_answer :
        (attempt : ℕ) → answers attempt ≡ interrupts → Decided admits answers (err interrupted)

  attempts-is_balanced :
      (max_attempts : ℕ) (admits : ℕ → Entry) (answers : ℕ → Answer R) (left attempt : ℕ)
      → is_balanced true (attempts max_attempts admits answers left attempt).0 ≡ true
  unfolding attempts
  attempts-is_balanced max_attempts admits answers zero attempt = refl
  attempts-is_balanced max_attempts admits answers (suc left) attempt =
      ground (
        arith,
        attempts-is_balanced max_attempts admits answers left (suc attempt),
        answers attempt,
      )

  attempts-operations :
      (max_attempts : ℕ) (admits : ℕ → Entry) (answers : ℕ → Answer R) (left attempt : ℕ)
      → operations (attempts max_attempts admits answers left attempt).0 ≤ left
  unfolding attempts
  attempts-operations max_attempts admits answers zero attempt = omega arith
  attempts-operations max_attempts admits answers (suc left) attempt =
      ground
        (arith, attempts-operations max_attempts admits answers left (suc attempt), answers attempt)

  attempts-records :
      (max_attempts : ℕ) (admits : ℕ → Entry) (answers : ℕ → Answer R) (left attempt : ℕ)
      → records (attempts max_attempts admits answers left attempt).0
        ≡ record_of (attempts max_attempts admits answers left attempt).1
  unfolding attempts
  attempts-records max_attempts admits answers zero attempt = refl
  attempts-records max_attempts admits answers (suc left) attempt =
      ground
        (arith, attempts-records max_attempts admits answers left (suc attempt), answers attempt)

  module _ (admits : ℕ → Entry) (answers : ℕ → Answer R) where
    retried-Decided :
        (k : ℕ) (entry : Entry) (rest : Run R)
        → admits k ≡ entry
        → Decided admits answers rest.1
        → Decided admits answers (retried entry rest).1
    retried-Decided k lease rest a d = d
    retried-Decided k full rest a d = by_code _
    retried-Decided k cancelled rest a d = by_cancelled_entry k a

    answered-Decided :
        (max_attempts attempt : ℕ) (answer : Answer R) (rest : Run R)
        → answers attempt ≡ answer
        → (ltb (attempt + 1) max_attempts ≡ true → Decided admits answers rest.1)
        → Decided admits answers
            (answered max_attempts attempt (admits (suc attempt)) answer rest).1
    answered-Decided max_attempts attempt (gives result) rest a d = by_result result
    answered-Decided max_attempts attempt breaks rest a d = by_code _
    answered-Decided max_attempts attempt interrupts rest a d = by_cancelled_answer attempt a
    answered-Decided max_attempts attempt (raises code) rest a d =
        elim (Bool-cases (code == "INFERENCE_SPACE_VIOLATION")) [
          | inl space ↦ rw space (by_code code)
          | inr other ↦ elim (Bool-cases (code == "INFERENCE_TRANSPORT_RETRYABLE")) [
            | inr no_retry ↦ rw (other, no_retry) (by_code code)
            | inl retry ↦ elim (Bool-cases (ltb (attempt + 1) max_attempts)) [
              | inr spent ↦ rw (other, retry, spent) (by_code "INFERENCE_TRANSPORT_EXHAUSTED")
              | inl left ↦
                  rw (other, retry, left)
                    (retried-Decided (suc attempt) (admits (suc attempt)) rest refl (d left))
            ]
          ]
        ]

    -- The loop that has all the attempts that are left does not run out of them, and lets no exception
    -- out that has no code.
    attempts-Decided :
        (max_attempts left attempt : ℕ)
        → max_attempts ≡ attempt + suc left
        → Decided admits answers (attempts max_attempts admits answers (suc left) attempt).1
    unfolding attempts
    attempts-Decided max_attempts zero attempt h =
        answered-Decided max_attempts attempt (answers attempt)
          (attempts max_attempts admits answers zero (suc attempt)) refl
          (λ more. none_left attempt max_attempts more h)
      where
        none_left : {A : Type ℓ} (n m : ℕ) → ltb (n + 1) m ≡ true → m ≡ n + 1 → A
        none_left n m more e = ground arith
    attempts-Decided max_attempts (suc left) attempt h =
        answered-Decided max_attempts attempt (answers attempt)
          (attempts max_attempts admits answers (suc left) (suc attempt)) refl
          (λ more. attempts-Decided max_attempts left (suc attempt) (omega arith))

  -- Every way through an invocation asks for a lease only when it has none, runs the operation only
  -- under a lease, sleeps without one, and ends with none.
  pub invoke-is_balanced :
      (max_attempts : ℕ) (preflight : Option String) (admits : ℕ → Entry) (answers : ℕ → Answer R)
      → is_balanced false (invoke max_attempts preflight admits answers).0 ≡ true
  unfolding invoke
  invoke-is_balanced max_attempts (some code) admits answers = refl
  invoke-is_balanced max_attempts none admits answers =
      ground (arith, attempts-is_balanced max_attempts admits answers max_attempts 0, admits 0)

  -- An invocation that is allowed an attempt runs the operation at most as often as it is allowed
  -- attempts, and ends with a result, an error that has a code, or the cancellation of its task while it
  -- waited for a lease or an answer; a result and an error with a code are recorded once, as they are,
  -- and a cancellation is not.
  pub invoke-records :
      (max_attempts : ℕ) (preflight : Option String) (admits : ℕ → Entry) (answers : ℕ → Answer R)
      → 1 ≤ max_attempts
      → (operations (invoke max_attempts preflight admits answers).0 ≤ max_attempts)
        × Decided admits answers (invoke max_attempts preflight admits answers).1
        × (records (invoke max_attempts preflight admits answers).0
            ≡ record_of (invoke max_attempts preflight admits answers).1)
  unfolding invoke
  invoke-records zero preflight admits answers h =
      let impossible : ⊥ = omega (arith, h) in elim impossible [ ]
  invoke-records (suc left) (some code) admits answers h = (omega arith, by_code code, refl)
  invoke-records (suc left) none admits answers h = (
    ground (arith, attempts-operations (suc left) admits answers (suc left) 0, admits 0),
    retried-Decided admits answers 0 (admits 0) (attempts (suc left) admits answers (suc left) 0)
        refl (attempts-Decided admits answers (suc left) left 0 (omega arith)),
    ground (arith, attempts-records (suc left) admits answers (suc left) 0, admits 0),
  )
