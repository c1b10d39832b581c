-- ===== src/Workflow/Definition/Routes.antt =====
-- What `_validate_routes` has checked of every route, and the adjacency that it builds.
use myknowledgebase.Prelude.{
  fold_ok-distinct, fold_ok_inv, ap, String, ◌≡◌, inl, inr, Bool, true, false, ◌&&◌, ◌||◌, some,
  List, [], ◌∷◌, map, arith, ◌==◌, string_eq, any, contains, distinct, add, lookup, Result, ok,
  >>=-eq-ok, fold_ok, pair_eq, nat_eq, bool_eq, Option-cases,
}
use myknowledgebase.Graph.{add_edge}
use myknowledgebase.Graph.Edges.{edge, sources, edge-add_edge, distinct-add_edge}
use myknowledgebase.Workflow.Kinds.{is_terminal, is_terminal_route, selector_eq}
use myknowledgebase.Workflow.Model.{StepDefinition, RouteDefinition, WorkflowDefinition}
use myknowledgebase.Workflow.Definition.{
  Fault, steps_by_key, RouteState, priority_key, route_step, no_routes,
}

-- The checks that a route has passed, and what the loop does with it.
pub record RouteTaken (d : WorkflowDefinition) (start_key : String) (st : RouteState)
    (r : RouteDefinition) (st' : RouteState) : Type 0 where
  pub source : StepDefinition
  pub target : StepDefinition
  pub source_found : lookup (steps_by_key d.steps) r.from_step_key ≡ some source
  pub target_found : lookup (steps_by_key d.steps) r.to_step_key ≡ some target
  pub not_self : (r.from_step_key == r.to_step_key) ≡ false
  pub source_goes_on : is_terminal source.step_kind ≡ false
  pub fresh : contains st.selector_priorities (priority_key r) ≡ false
  pub kind_agrees : (is_terminal_route r.route_kind == is_terminal target.step_kind) ≡ true
  pub adjacency_grows : st'.adjacency ≡ add_edge r.from_step_key r.to_step_key st.adjacency
  pub priorities_grow : st'.selector_priorities ≡ add (priority_key r) st.selector_priorities

pub route_step-RouteTaken :
    (d : WorkflowDefinition) (start_key : String) (st : RouteState) (r : RouteDefinition)
    {st' : RouteState}
    → route_step d start_key st r ≡ ok st'
    → RouteTaken d start_key st r st'
unfolding route_step
route_step-RouteTaken d start_key st r h =
    elim (Option-cases (lookup (steps_by_key d.steps) r.from_step_key)) [
      | inl e ↦ cc (rw e at h)
      | inr (source, e) ↦ elim (Option-cases (lookup (steps_by_key d.steps) r.to_step_key)) [
        | inl e' ↦ ground arith
        | inr (target, e') ↦ record {
          source = source;
          target = target;
          source_found = e;
          target_found = e';
          not_self = ground arith;
          source_goes_on = ground arith;
          fresh = ground arith;
          kind_agrees = ground arith;
          adjacency_grows = ground arith;
          priorities_grow = ground arith;
        }
      ]
    ]

-- The route leads from `s` to `t`.
abbrev pub goes : String → String → RouteDefinition → Bool
goes s t r = (r.from_step_key == s) && (r.to_step_key == t)

-- The adjacency has an edge for each route and no other.
pub edge-routes :
    (d : WorkflowDefinition) (start_key : String) (routes : List RouteDefinition) (st : RouteState)
    {st' : RouteState}
    → fold_ok (route_step d start_key) st routes ≡ ok st'
    → (s t : String) → edge st'.adjacency s t ≡ (edge st.adjacency s t || any (goes s t) routes)
edge-routes d start_key [] st h s t = ground (arith, ap (λ (x : Result Fault RouteState). x) h)
edge-routes d start_key (r ∷ routes) st h s t =
    let g =
      >>=-eq-ok (route_step d start_key st r) (λ x. fold_ok (route_step d start_key) x routes) h in
    let taken = route_step-RouteTaken d start_key st r g.1 in
    ground (
      arith,
      edge-routes d start_key routes g.0 g.2 s t,
      taken.adjacency_grows,
      edge-add_edge r.from_step_key r.to_step_key st.adjacency s t,
    )

pub routes-distinct-sources :
    (d : WorkflowDefinition) (start_key : String) (routes : List RouteDefinition) (st : RouteState)
    {st' : RouteState}
    → distinct (sources st.adjacency) ≡ true
    → fold_ok (route_step d start_key) st routes ≡ ok st'
    → distinct (sources st'.adjacency) ≡ true
routes-distinct-sources d start_key =
    fold_ok_inv (λ st. distinct (sources st.adjacency) ≡ true) (route_step d start_key)
      (λ st r st' p h.
        let taken = route_step-RouteTaken d start_key st r h in
        rw taken.adjacency_grows (distinct-add_edge r.from_step_key r.to_step_key st.adjacency p))

-- No two routes leave one step on one outcome with one priority.
pub routes_distinct :
    (d : WorkflowDefinition) (start_key : String) (routes : List RouteDefinition) {st : RouteState}
    → fold_ok (route_step d start_key) no_routes routes ≡ ok st
    → distinct (map priority_key routes) ≡ true
routes_distinct d start_key routes h =
    (fold_ok-distinct priority_key (route_step d start_key) (λ st. st.selector_priorities)
      (λ st r st' g.
        let taken = route_step-RouteTaken d start_key st r g in
        (taken.fresh, taken.priorities_grow))
      routes no_routes h).1
