-- ===== src/Workflow/Definition/Built.antt =====
-- The adjacency that `_validate_routes` hands on: its paths are the paths of the routes.
use myknowledgebase.Prelude.{
  require, some, String, ◌≡◌, refl, sym, ◌∙◌, ap, subst, true, List, Memᴰ, map, arith, string_eq,
  any, any-mem, mem-any, mem-contains, contains-mem, distinct, lookup, lookup-mem, mem_of_map, ok,
  fold_ok, fold_ok-mem, >>=-eq-ok, >>-eq-ok, beq→eq, beq_refl,
}
use myknowledgebase.Graph.{Adjacency, targets}
use myknowledgebase.Graph.Edges.{edge, sources, Trail, here, step}
use myknowledgebase.Workflow.Model.{StepDefinition, RouteDefinition, WorkflowDefinition}
use myknowledgebase.Workflow.Definition.{
  Fault, RouteState, steps_by_key, route_step, no_routes, validate_routes,
}
use myknowledgebase.Workflow.Definition.Routes.{
  route_step-RouteTaken, goes, edge-routes, routes-distinct-sources,
}
use myknowledgebase.Workflow.Definition.Spec.{RoutePath, stay, follow}

abbrev pub StepOf : WorkflowDefinition → String → Type 0
StepOf d key = (s : StepDefinition) × (Memᴰ s d.steps × (s.step_key ≡ key))

pub record Built (d : WorkflowDefinition) (adj : Adjacency String) : Type 0 where
  pub represents : (s t : String) → edge adj s t ≡ any (goes s t) d.routes
  pub uniform : distinct (sources adj) ≡ true
  pub from_step : (r : RouteDefinition) → Memᴰ r d.routes → StepOf d r.from_step_key
  pub to_step : (r : RouteDefinition) → Memᴰ r d.routes → StepOf d r.to_step_key

-- The step that is found under a key is a declared step with that key.
pub lookup-steps_by_key :
    (steps : List StepDefinition) (key : String) {s : StepDefinition}
    → lookup (steps_by_key steps) key ≡ some s
    → Memᴰ s steps × (s.step_key ≡ key)
lookup-steps_by_key steps key {s} h =
    let r =
      mem_of_map (λ (x : StepDefinition). (x.step_key, x)) steps
        (lookup-mem (steps_by_key steps) key h) in
    let same : r.0 ≡ s = ap (λ (p : String × StepDefinition). p.1) r.2 in
    (
      subst (λ x. Memᴰ x steps) same r.1,
      ap (λ x. x.step_key) (sym same) ∙ ap (λ (p : String × StepDefinition). p.0) r.2,
    )

pub validate_routes_loop :
    (d : WorkflowDefinition) (start_key : String) {adj : Adjacency String}
    → validate_routes d start_key ≡ ok adj
    → (st : RouteState) × (fold_ok (route_step d start_key) no_routes d.routes ≡ ok st)
      × (st.adjacency ≡ adj)
unfolding validate_routes
validate_routes_loop d start_key h =
    let a =
      >>-eq-ok (require (distinct (map (λ r. r.route_key) d.routes)) Fault.route_keys_repeat) _ h in
    let g = >>=-eq-ok (fold_ok (route_step d start_key) no_routes d.routes) _ a.1 in
    let z = >>-eq-ok (require _ Fault.guard_unreferenced) (ok g.0.adjacency) g.2 in
    (g.0, g.1, cc (z.1))

pub validate_routes-Built :
    (d : WorkflowDefinition) (start_key : String) {adj : Adjacency String}
    → validate_routes d start_key ≡ ok adj
    → Built d adj
unfolding targets
validate_routes-Built d start_key h =
    let (st, loop, e) = validate_routes_loop d start_key h in
    record {
      represents = λ s t.
          subst (λ w. edge w s t ≡ any (goes s t) d.routes) e
            (edge-routes d start_key d.routes no_routes loop s t);
      uniform =
          subst (λ w. distinct (sources w) ≡ true) e
            (routes-distinct-sources d start_key d.routes no_routes refl loop);
      from_step = λ r m.
          let (before, after, g) = fold_ok-mem (route_step d start_key) d.routes no_routes loop m in
          let taken = route_step-RouteTaken d start_key before r g in
          (taken.source, lookup-steps_by_key d.steps r.from_step_key taken.source_found);
      to_step = λ r m.
          let (before, after, g) = fold_ok-mem (route_step d start_key) d.routes no_routes loop m in
          let taken = route_step-RouteTaken d start_key before r g in
          (taken.target, lookup-steps_by_key d.steps r.to_step_key taken.target_found);
    }

module _ {d : WorkflowDefinition} {adj : Adjacency String} (b : Built d adj) where
  pub edge-route :
      {s t : String}
      → edge adj s t ≡ true
      → (r : RouteDefinition) × Memᴰ r d.routes × (r.from_step_key ≡ s) × (r.to_step_key ≡ t)
  edge-route {s} {t} h =
      let a = any-mem (goes s t) d.routes (sym (b.represents s t) ∙ h) in
      (a.0, a.1, beq→eq a.0.from_step_key s (ground arith), beq→eq a.0.to_step_key t (ground arith))

  pub route-edge :
      (r : RouteDefinition) → Memᴰ r d.routes → edge adj r.from_step_key r.to_step_key ≡ true
  route-edge r m =
      b.represents r.from_step_key r.to_step_key
      ∙ mem-any (goes r.from_step_key r.to_step_key) d.routes m
          (ground (arith, beq_refl r.from_step_key, beq_refl r.to_step_key))

  pub Trail-RoutePath : {s t : String} → Trail adj s t → RoutePath d.routes s t
  Trail-RoutePath here = stay
  Trail-RoutePath (step {s = s} {t = t} {u = u} x p) =
      let r = edge-route (mem-contains _ x) in
      follow r.0 r.1 r.2 (subst (λ w. RoutePath d.routes w u) (sym r.3) (Trail-RoutePath p))

  pub RoutePath-Trail : {s t : String} → RoutePath d.routes s t → Trail adj s t
  RoutePath-Trail stay = here
  RoutePath-Trail (follow {u = u} r m e p) =
      subst (λ w. Trail adj w u) e
        (step (contains-mem _ r.to_step_key (route-edge r m)) (RoutePath-Trail p))
