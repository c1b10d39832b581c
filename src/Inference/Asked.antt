-- ===== src/Inference/Asked.antt =====
-- Which providers a run of src/runtime/inference/agent_router.py asks.
use myknowledgebase.Prelude.{
  beq→eq, ℕ, suc, ◌≡◌, refl, ap, subst, String, Bool, true, false, not, ◌&&◌, Option, none, some,
  List, [], ◌∷◌, ◌==◌, string_eq, all, contains, distinct, arith, Bool-cases, inl, inr, beq_refl,
  and_right, all-of_mem, mem-contains,
}
use myknowledgebase.Inference.Attempts.{interrupts, Answer, gives, raises, breaks}
use myknowledgebase.Inference.Router.{
  agent_providers, is_fallbackable, attempt_order, chosen_plan, Step, unavailable, refused,
  acquired, given_back, asked, Reply, Agents, effective_model, Turn, passes, answer_turn, turn,
  RouterRun, go_on, try_providers, run,
}
use myknowledgebase.Inference.Order.{attempt_order-distinct}

-- Whether steps, begun with the lease of a provider or with none, ask a provider only under its lease,
-- have one lease at a time, and end with none.
abbrev pub holds_one : Option String → List Step → Bool
holds_one none [] = true
holds_one (some p) [] = false
holds_one none (unavailable q ∷ steps) = holds_one none steps
holds_one none (refused q ∷ steps) = holds_one none steps
holds_one none (acquired q ∷ steps) = holds_one (some q) steps
holds_one none (given_back q ∷ steps) = false
holds_one none (asked q model ∷ steps) = false
holds_one (some p) (unavailable q ∷ steps) = false
holds_one (some p) (refused q ∷ steps) = false
holds_one (some p) (acquired q ∷ steps) = false
holds_one (some p) (given_back q ∷ steps) = (p == q) && holds_one none steps
holds_one (some p) (asked q model ∷ steps) = (p == q) && holds_one (some p) steps

abbrev pub providers_asked : List Step → List String
providers_asked [] = []
providers_asked (asked p model ∷ steps) = p ∷ providers_asked steps
providers_asked (unavailable p ∷ steps) = providers_asked steps
providers_asked (refused p ∷ steps) = providers_asked steps
providers_asked (acquired p ∷ steps) = providers_asked steps
providers_asked (given_back p ∷ steps) = providers_asked steps

abbrev pub is_distinct_in : List String → List String → Bool
is_distinct_in order xs = distinct xs && all (contains order) xs

module _ {ℓ} {R : Type ℓ} where
  -- What a turn has asked of a provider.
  pub data Turned (agents : Agents R) (asked_model : Option String) (p : String) (ordinal : ℕ)
      (previous reason : Option String) : Turn R → Type ℓ where
    no_transport :
        agents.has_transport p ≡ false
        → Turned agents asked_model p ordinal previous reason
            (passes (unavailable p ∷ []) reason "CLAUDE_CLI_TRANSPORT_FAILED")
    no_lease :
        agents.admits p ≡ false
        → Turned agents asked_model p ordinal previous reason
            (passes (refused p ∷ []) reason "INFERENCE_BACKPRESSURE")
    answers_on :
        {model : Option String} {a : Answer (Reply R)}
        → agents.has_transport p ≡ true
        → agents.admits p ≡ true
        → model ≡ effective_model agents.primary_model p asked_model
        → agents.answers p model ≡ a
        → Turned agents asked_model p ordinal previous reason
            (answer_turn p model ordinal previous reason a)

  pub turn-Turned :
      (agents : Agents R) (asked_model : Option String) (p : String) (ordinal : ℕ)
      (previous reason : Option String)
      → Turned agents asked_model p ordinal previous reason
          (turn agents asked_model p ordinal previous reason)
  turn-Turned agents asked_model p ordinal previous reason =
      elim (Bool-cases (agents.has_transport p)) [
        | inr missing ↦ rw missing (no_transport missing)
        | inl found ↦ elim (Bool-cases (agents.admits p)) [
          | inr full ↦ rw (found, full) (no_lease full)
          | inl free ↦ rw (found, free) (answers_on found free refl refl)
        ]
      ]

  answer_holds_one :
      (p : String) (model : Option String) (ordinal : ℕ) (previous reason : Option String)
      (a : Answer (Reply R)) (rest : Option String → String → RouterRun R)
      → ((r : Option String) → (c : String) → holds_one none (rest r c).0 ≡ true)
      → holds_one none (go_on (answer_turn p model ordinal previous reason a) rest).0 ≡ true
  answer_holds_one p model ordinal previous reason (gives r) rest h = ground (arith, beq_refl p)
  answer_holds_one p model ordinal previous reason breaks rest h = ground (arith, beq_refl p)
  answer_holds_one p model ordinal previous reason interrupts rest h = ground (arith, beq_refl p)
  answer_holds_one p model ordinal previous reason (raises code) rest h =
      elim (Bool-cases (is_fallbackable code)) [
        | inl passed ↦ rw passed (ground (arith, beq_refl p, h (some code) code))
        | inr stopped ↦ rw stopped (ground (arith, beq_refl p))
      ]

  turn_holds_one :
      {agents : Agents R} {asked_model : Option String} {p : String} {ordinal : ℕ}
      {previous reason : Option String} {t : Turn R}
      → Turned agents asked_model p ordinal previous reason t
      → (rest : Option String → String → RouterRun R)
      → ((r : Option String) → (c : String) → holds_one none (rest r c).0 ≡ true)
      → holds_one none (go_on t rest).0 ≡ true
  turn_holds_one {reason = reason} (no_transport missing) rest h =
      h reason "CLAUDE_CLI_TRANSPORT_FAILED"
  turn_holds_one {reason = reason} (no_lease full) rest h = h reason "INFERENCE_BACKPRESSURE"
  turn_holds_one {p = p} {ordinal = ordinal} {previous = previous} {reason = reason}
        (answers_on {model} {a} f g m e) rest h =
      answer_holds_one p model ordinal previous reason a rest h

  try_holds_one :
      (agents : Agents R) (model : Option String) (order : List String) (ordinal : ℕ)
      (previous reason : Option String) (code : String)
      → holds_one none (try_providers agents model order ordinal previous reason code).0 ≡ true
  unfolding try_providers
  try_holds_one agents model [] ordinal previous reason code = refl
  try_holds_one agents model (p ∷ ps) ordinal previous reason code =
      turn_holds_one (turn-Turned agents model p ordinal previous reason)
        (try_providers agents model ps (suc ordinal) (some p))
        (λ r c. try_holds_one agents model ps (suc ordinal) (some p) r c)

  -- A run asks a provider only while it has the lease of that provider, has one lease at a time, and ends
  -- with none, however it ends.
  pub run-holds_one :
      (agents : Agents R) (own_plan : List String) (cursor : Option ℕ) (index : ℕ)
      (model : Option String) (provider_plan : Option (List String))
      → holds_one none (run agents own_plan cursor index model provider_plan).0 ≡ true
  unfolding run
  run-holds_one agents own_plan cursor index model provider_plan =
      try_holds_one agents model (attempt_order cursor index (chosen_plan provider_plan own_plan)).0
        0 none none "CLAUDE_CLI_TRANSPORT_FAILED"

-- The second list is part of the first, in its order, and the test holds of it.
data Selected (test : String → Bool) : List String → List String → Type 0 where
  stops : {order : List String} → Selected test order []
  leaves :
      {p : String} {order xs : List String} → Selected test order xs → Selected test (p ∷ order) xs
  takes :
      {p : String} {order xs : List String}
      → test p ≡ true
      → Selected test order xs
      → Selected test (p ∷ order) (p ∷ xs)

Selected-contained :
    (test : String → Bool) {order xs : List String} (q : String)
    → Selected test order xs
    → contains xs q ≡ true
    → (contains order q && test q) ≡ true
Selected-contained test q stops h = cc
Selected-contained test q (leaves s) h = ground (arith, Selected-contained test q s h)
Selected-contained test q (takes {p} {order} {xs} t s) h = elim (Bool-cases (p == q)) [
  | inl same ↦ ground (arith, t, ap test (beq→eq p q same), same)
  | inr other ↦ ground (arith, other, Selected-contained test q s (ground (arith, other, h)))
]

Selected-distinct :
    (test : String → Bool) {order xs : List String}
    → Selected test order xs
    → distinct order ≡ true
    → distinct xs ≡ true
Selected-distinct test stops h = refl
Selected-distinct test (leaves {p} {order} s) h =
    Selected-distinct test s (and_right (not (contains order p)) (distinct order) h)
Selected-distinct test (takes {p} {order} {xs} t s) h = elim (Bool-cases (contains xs p)) [
  | inr new ↦
      ground (
        arith,
        new,
        Selected-distinct test s (and_right (not (contains order p)) (distinct order) h),
      )
  | inl old ↦ ground (arith, h, Selected-contained test p s old)
]

module _ {ℓ} {R : Type ℓ} where
  abbrev pub is_open : Agents R → String → Bool
  is_open agents p = agents.has_transport p && agents.admits p

  turn-Selected :
      {agents : Agents R} {asked_model : Option String} {p : String} {ordinal : ℕ}
      {previous reason : Option String} {t : Turn R} {ps : List String}
      → Turned agents asked_model p ordinal previous reason t
      → (rest : Option String → String → RouterRun R)
      → ((r : Option String)
          → (c : String) → Selected (is_open agents) ps (providers_asked (rest r c).0))
      → Selected (is_open agents) (p ∷ ps) (providers_asked (go_on t rest).0)
  turn-Selected {reason = reason} (no_transport missing) rest h =
      leaves (h reason "CLAUDE_CLI_TRANSPORT_FAILED")
  turn-Selected {reason = reason} (no_lease full) rest h =
      leaves (h reason "INFERENCE_BACKPRESSURE")
  turn-Selected (answers_on {a = gives r} f g m e) rest h = takes (ground (arith, f, g)) stops
  turn-Selected (answers_on {a = breaks} f g m e) rest h = takes (ground (arith, f, g)) stops
  turn-Selected (answers_on {a = interrupts} f g m e) rest h = takes (ground (arith, f, g)) stops
  turn-Selected (answers_on {a = raises code} f g m e) rest h =
      elim (Bool-cases (is_fallbackable code)) [
        | inl passed ↦ rw passed (takes (ground (arith, f, g)) (h (some code) code))
        | inr stopped ↦ rw stopped (takes (ground (arith, f, g)) stops)
      ]

  try-Selected :
      (agents : Agents R) (model : Option String) (order : List String) (ordinal : ℕ)
      (previous reason : Option String) (code : String)
      → Selected
          (is_open agents)
          order
          (providers_asked (try_providers agents model order ordinal previous reason code).0)
  unfolding try_providers
  try-Selected agents model [] ordinal previous reason code = stops
  try-Selected agents model (p ∷ ps) ordinal previous reason code =
      turn-Selected (turn-Turned agents model p ordinal previous reason)
        (try_providers agents model ps (suc ordinal) (some p))
        (λ r c. try-Selected agents model ps (suc ordinal) (some p) r c)

  -- A run asks no provider twice, and only providers that are known, stand in the plan of the request or
  -- else in the router's own, have a transport and got a lease.
  pub run-providers_asked :
      (agents : Agents R) (own_plan : List String) (cursor : Option ℕ) (index : ℕ)
      (model : Option String) (provider_plan : Option (List String))
      → (distinct (providers_asked (run agents own_plan cursor index model provider_plan).0) ≡ true)
        × (all
              (λ p.
                (contains (chosen_plan provider_plan own_plan) p && contains agent_providers p)
                && is_open agents p)
              (providers_asked (run agents own_plan cursor index model provider_plan).0)
            ≡ true)
  unfolding run
  run-providers_asked agents own_plan cursor index model provider_plan =
      let plan = chosen_plan provider_plan own_plan in
      let order = (attempt_order cursor index plan).0 in
      let got =
        providers_asked
          (try_providers agents model order 0 none none "CLAUDE_CLI_TRANSPORT_FAILED").0 in
      let s = try-Selected agents model order 0 none none "CLAUDE_CLI_TRANSPORT_FAILED" in
      (
        Selected-distinct (is_open agents) s (attempt_order-distinct cursor index plan "").0,
        all-of_mem (λ p. (contains plan p && contains agent_providers p) && is_open agents p) got
            (λ p m.
              let known = (attempt_order-distinct cursor index plan p).1 in
              let taken = Selected-contained (is_open agents) p s (mem-contains got m) in
              subst (λ x. (x && is_open agents p) ≡ true) known taken),
      )
