-- ===== src/Workflow/Definition/Spec.antt =====
-- What a sound workflow graph is, said of the routes alone: no walk, no set, no fuel.
use myknowledgebase.Prelude.{String, ◌≡◌, ◌⊎◌, true, ◌||◌, List, Memᴰ}
use myknowledgebase.Workflow.Kinds.{
  OutcomeSelector, succeeded, failed, cancelled, is_terminal, is_process, is_control,
}
use myknowledgebase.Workflow.Model.{StepDefinition, RouteDefinition, WorkflowDefinition}

-- A sequence of routes from one step to another.
pub data RoutePath (routes : List RouteDefinition) : String → String → Type 0 where
  stay : {s : String} → RoutePath routes s s
  follow :
      {s u : String} (r : RouteDefinition)
      → Memᴰ r routes
      → r.from_step_key ≡ s
      → RoutePath routes r.to_step_key u
      → RoutePath routes s u

abbrev pub IsOutcome : OutcomeSelector → Type 0
IsOutcome o = (o ≡ succeeded) ⊎ ((o ≡ failed) ⊎ (o ≡ cancelled))

pub record GraphSound (d : WorkflowDefinition) (start_key : String) : Type 0 where
  -- The start step has a route.
  pub leaves : (r : RouteDefinition) × Memᴰ r d.routes × (r.from_step_key ≡ start_key)
  -- No step lies on a cycle.
  pub acyclic :
      (s : StepDefinition) (r : RouteDefinition)
      → Memᴰ s d.steps
      → Memᴰ r d.routes
      → r.from_step_key ≡ s.step_key
      → ¬ RoutePath d.routes r.to_step_key s.step_key
  -- Every step can be reached, and can reach a terminal.
  pub reachable : (s : StepDefinition) → Memᴰ s d.steps → RoutePath d.routes start_key s.step_key
  pub ends :
      (s : StepDefinition)
      → Memᴰ s d.steps
      → (t : StepDefinition) × Memᴰ t d.steps
        × (is_terminal t.step_kind ≡ true)
        × RoutePath d.routes s.step_key t.step_key
  -- A process or control step has a route for each of the three outcomes.
  pub covered :
      (s : StepDefinition) (o : OutcomeSelector)
      → Memᴰ s d.steps
      → (is_process s.step_kind || is_control s.step_kind) ≡ true
      → IsOutcome o
      → (r : RouteDefinition) × Memᴰ r d.routes
        × (r.from_step_key ≡ s.step_key)
        × (r.outcome_selector ≡ o)
