-- ===== src/Workflow/Definition/RouteRules.antt =====
-- The rules on single routes that an accepted workflow obeys.
use myknowledgebase.Prelude.{
  beq→eq, beq_false→ne, ◌≡◌, ◌≢◌, true, false, Memᴰ, map, string_eq, nat_eq, pair_eq, bool_eq,
  distinct, ok, fold_ok-mem,
}
use myknowledgebase.Workflow.Kinds.{is_terminal, is_terminal_route, selector_eq}
use myknowledgebase.Workflow.Model.{RouteDefinition, WorkflowDefinition}
use myknowledgebase.Workflow.Definition.{priority_key, route_step, no_routes, validate_definition}
use myknowledgebase.Workflow.Definition.Routes.{route_step-RouteTaken, routes_distinct}
use myknowledgebase.Workflow.Definition.Built.{StepOf, validate_routes_loop, lookup-steps_by_key}
use myknowledgebase.Workflow.Definition.Loaded.{validate_definition-Loaded}

-- In a workflow that validation accepts, a route joins two different declared steps, leaves no
-- terminal step, and is a terminal route exactly if it enters one; and no two routes leave one step
-- on one outcome with one priority.
pub validate_definition-route_rules :
    (d : WorkflowDefinition)
    → validate_definition d ≡ ok tt
    → (distinct (map priority_key d.routes) ≡ true)
      × ((r : RouteDefinition)
          → Memᴰ r d.routes
          → (source : StepOf d r.from_step_key) × (target : StepOf d r.to_step_key)
            × (r.from_step_key ≢ r.to_step_key)
            × (is_terminal source.0.step_kind ≡ false)
            × (is_terminal_route r.route_kind ≡ is_terminal target.0.step_kind))
validate_definition-route_rules d h =
    let l = validate_definition-Loaded d h in
    let (st, loop, e) = validate_routes_loop d l.start_key l.routes in
    (
      routes_distinct d l.start_key d.routes loop,
      λ r m.
          let (before, after, g) =
            fold_ok-mem (route_step d l.start_key) d.routes no_routes loop m in
          let taken = route_step-RouteTaken d l.start_key before r g in
          let source = lookup-steps_by_key d.steps r.from_step_key taken.source_found in
          let target = lookup-steps_by_key d.steps r.to_step_key taken.target_found in
          (
            (taken.source, source),
            (taken.target, target),
            beq_false→ne r.from_step_key r.to_step_key taken.not_self,
            taken.source_goes_on,
            beq→eq (is_terminal_route r.route_kind) (is_terminal taken.target.step_kind)
                taken.kind_agrees,
          ),
    )
