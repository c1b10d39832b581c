-- ===== src/Inference/Retries.antt =====
-- Which attempt the result of an invocation of src/runtime/inference/facade.py comes from.
use myknowledgebase.Prelude.{
  ◌⊎◌, ℕ, zero, suc, ◌+◌, ◌<◌, ◌≡◌, refl, ap, ◌∙◌, String, Option, none, some, ◌==◌, string_eq,
  nat_eq, Result, ok, err, arith, Bool-cases, inl, inr, beq→eq,
}
use myknowledgebase.Inference.Attempts.{
  interrupts, Entry, lease, full, cancelled, retried, Answer, gives, raises, breaks, Failure, coded,
  broken, Run, answered, attempts, invoke,
}

module _ {ℓ} {R : Type ℓ} where
  -- From an attempt on, the adapter is asked again only after an error that may be retried, until an
  -- attempt below the bound gives the result.
  pub data Reached (answers : ℕ → Answer R) (max_attempts : ℕ) (result : R) : ℕ → Type ℓ where
    here :
        {attempt : ℕ}
        → attempt < max_attempts
        → answers attempt ≡ gives result
        → Reached answers max_attempts result attempt
    later :
        {attempt : ℕ}
        → answers attempt ≡ raises "INFERENCE_TRANSPORT_RETRYABLE"
        → Reached answers max_attempts result (suc attempt)
        → Reached answers max_attempts result attempt

  attempts-Reached :
      (max_attempts : ℕ) (admits : ℕ → Entry) (answers : ℕ → Answer R) (left attempt : ℕ)
      {result : R}
      → attempt + left ≡ max_attempts
      → (attempts max_attempts admits answers left attempt).1 ≡ ok result
      → Reached answers max_attempts result attempt
  unfolding attempts
  attempts-Reached max_attempts admits answers zero attempt b h = cc
  attempts-Reached max_attempts admits answers (suc left) attempt {result} b h =
      of_answer (answers attempt) refl h
        (attempts-Reached max_attempts admits answers left (suc attempt) (omega arith))
    where
      of_answer :
          (a : Answer R)
          → answers attempt ≡ a
          → (answered max_attempts attempt
              (admits (suc attempt))
              a
              (attempts max_attempts admits answers left (suc attempt))).1
            ≡ ok result
          → ((attempts max_attempts admits answers left (suc attempt)).1 ≡ ok result
              → Reached answers max_attempts result (suc attempt))
          → Reached answers max_attempts result attempt
      of_answer (gives r) p g ih = here (omega arith) (cc)
      of_answer breaks p g ih = cc
      of_answer interrupts p g ih = cc
      of_answer (raises code) p g ih = elim (Bool-cases (code == "INFERENCE_TRANSPORT_RETRYABLE")) [
        | inr no_retry ↦ ground (arith, g)
        | inl retry ↦
            let code_is = beq→eq code "INFERENCE_TRANSPORT_RETRYABLE" retry in
            later (p ∙ ap (λ c. raises c) code_is)
              (ih (ground (arith, admits (suc attempt), (rw code_is at g))))
      ]

  -- If an invocation gives a result, the preflight raised nothing, and there is an attempt below the
  -- bound whose answer is the result, and every attempt before it raised the error that may be retried.
  pub invoke-Reached :
      (max_attempts : ℕ) (preflight : Option String) (admits : ℕ → Entry) (answers : ℕ → Answer R)
      {result : R}
      → (invoke max_attempts preflight admits answers).1 ≡ ok result
      → (preflight ≡ none) × Reached answers max_attempts result 0
  unfolding invoke
  invoke-Reached max_attempts (some code) admits answers h = cc
  invoke-Reached max_attempts none admits answers {result} h = (
    refl,
    attempts-Reached max_attempts admits answers max_attempts 0 (omega arith)
        (entered (admits 0) (attempts max_attempts admits answers max_attempts 0) h),
  )
    where
      entered :
          (entry : Entry) (rest : Run R) → (retried entry rest).1 ≡ ok result → rest.1 ≡ ok result
      entered lease rest g = g
      entered full rest g = cc
      entered cancelled rest g = cc

  -- The results of the older call and of an invocation: the same, or an exception without a code, which the
  -- older call raises as it is and an invocation under a code of its own.
  abbrev pub Agree : Result Failure R → Result Failure R → Type ℓ
  Agree legacy invoked =
      (legacy ≡ invoked)
      ⊎ ((legacy ≡ err broken) × (invoked ≡ err (coded "INFERENCE_INTERNAL_UNEXPECTED")))
