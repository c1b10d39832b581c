-- ===== src/Inference/Chosen.antt =====
-- Whose answer a run of src/runtime/inference/agent_router.py gives.
use myknowledgebase.Prelude.{
  ℕ, suc, ◌≡◌, String, true, false, ◌&&◌, Option, none, some, List, [], ◌∷◌, string_eq, ok, arith,
  Bool-cases, inl, inr,
}
use myknowledgebase.Inference.Attempts.{interrupts, gives, raises, breaks}
use myknowledgebase.Inference.Router.{
  is_fallbackable, attempt_order, chosen_plan, Reply, Served, Agents, effective_model, model_or,
  Turn, RouterRun, go_on, try_providers, run,
}
use myknowledgebase.Inference.Asked.{Turned, no_transport, no_lease, answers_on, turn-Turned}

module _ {ℓ} {R : Type ℓ} where
  -- Why the result of a run over providers is the one of its provider: all before it had no transport,
  -- no lease, or an error that lets the next one be asked; the last such error is the reason.
  pub data Serves (agents : Agents R) (asked_model : Option String) (served : Served R)
      : List String → ℕ → Option String → Option String → Type ℓ where
    here :
        {p : String} {ps : List String} {ordinal : ℕ} {previous reason : Option String}
        {r : Reply R}
        → agents.has_transport p ≡ true
        → agents.admits p ≡ true
        → agents.answers p (effective_model agents.primary_model p asked_model) ≡ gives r
        → served ≡ record {
          reply = r.reply;
          provider = p;
          model = model_or r.model (effective_model agents.primary_model p asked_model);
          attempt_ordinal = ordinal;
          fallback_from = previous;
          fallback_reason = reason;
        }
        → Serves agents asked_model served (p ∷ ps) ordinal previous reason
    skipped :
        {p : String} {ps : List String} {ordinal : ℕ} {previous reason : Option String}
        → (agents.has_transport p && agents.admits p) ≡ false
        → Serves agents asked_model served ps (suc ordinal) (some p) reason
        → Serves agents asked_model served (p ∷ ps) ordinal previous reason
    failed :
        {p : String} {ps : List String} {ordinal : ℕ} {previous reason : Option String}
        {code : String}
        → (agents.has_transport p && agents.admits p) ≡ true
        → agents.answers p (effective_model agents.primary_model p asked_model) ≡ raises code
        → is_fallbackable code ≡ true
        → Serves agents asked_model served ps (suc ordinal) (some p) (some code)
        → Serves agents asked_model served (p ∷ ps) ordinal previous reason

  turn-Serves :
      {agents : Agents R} {asked_model : Option String} {p : String} {ordinal : ℕ}
      {previous reason : Option String} {t : Turn R} {ps : List String} {served : Served R}
      → Turned agents asked_model p ordinal previous reason t
      → (rest : Option String → String → RouterRun R)
      → ((r : Option String)
          → (c : String) → (rest r c).1 ≡ ok served
          → Serves agents asked_model served ps (suc ordinal) (some p) r)
      → (go_on t rest).1 ≡ ok served
      → Serves agents asked_model served (p ∷ ps) ordinal previous reason
  turn-Serves {reason = reason} (no_transport missing) rest h e =
      skipped (ground (arith, missing)) (h reason "CLAUDE_CLI_TRANSPORT_FAILED" e)
  turn-Serves {reason = reason} (no_lease full) rest h e =
      skipped (ground (arith, full)) (h reason "INFERENCE_BACKPRESSURE" e)
  turn-Serves (answers_on {a = gives r} f g m a) rest h e =
      here {r = r} f g (cc (m, a)) (ground (arith, m, e))
  turn-Serves (answers_on {a = breaks} f g m a) rest h e = cc
  turn-Serves (answers_on {a = interrupts} f g m a) rest h e = cc
  turn-Serves (answers_on {a = raises code} f g m a) rest h e =
      elim (Bool-cases (is_fallbackable code)) [
        | inl passed ↦
            failed (ground (arith, f, g)) (cc (m, a)) passed (h (some code) code (rw passed at e))
        | inr stopped ↦ cc (rw stopped at e)
      ]

  try-Serves :
      (agents : Agents R) (model : Option String) (order : List String) (ordinal : ℕ)
      (previous reason : Option String) (code : String) {served : Served R}
      → (try_providers agents model order ordinal previous reason code).1 ≡ ok served
      → Serves agents model served order ordinal previous reason
  unfolding try_providers
  try-Serves agents model [] ordinal previous reason code h = cc
  try-Serves agents model (p ∷ ps) ordinal previous reason code h =
      turn-Serves (turn-Turned agents model p ordinal previous reason)
        (try_providers agents model ps (suc ordinal) (some p))
        (λ r c. try-Serves agents model ps (suc ordinal) (some p) r c) h

  -- The answer of a run is that of a provider in the order of attempts, under its ordinal, after all
  -- providers before it had no transport, no lease, or failed with an error that lets the next one be
  -- asked; the last such error is its reason, and the provider before it in the order is where it fell
  -- back from.
  pub run-Serves :
      (agents : Agents R) (own_plan : List String) (cursor : Option ℕ) (index : ℕ)
      (model : Option String) (provider_plan : Option (List String)) {served : Served R}
      → (run agents own_plan cursor index model provider_plan).1 ≡ ok served
      → Serves agents model served
          (attempt_order cursor index (chosen_plan provider_plan own_plan)).0
          0
          none
          none
  unfolding run
  run-Serves agents own_plan cursor index model provider_plan h =
      try-Serves agents model (attempt_order cursor index (chosen_plan provider_plan own_plan)).0 0
        none none "CLAUDE_CLI_TRANSPORT_FAILED" h
