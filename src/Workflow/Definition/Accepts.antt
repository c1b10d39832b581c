-- ===== src/Workflow/Definition/Accepts.antt =====
-- `_validate_graph` and the specification of a sound graph, in both directions.
use myknowledgebase.Prelude.{
  Bool-cases, String, ◌≡◌, refl, sym, ◌∙◌, subst, ◌↔◌, inl, inr, true, ◌&&◌, ◌||◌, some, List, [],
  Memᴰ, arith, ◌==◌, string_eq, any, all, any-mem, mem-any, all-mem, all-of_mem, mem-map,
  mem_of_map, mem-keep, keep-mem, contains, mem-contains, contains-mem, keep, lookup, length, suc,
  ◌+◌, Result, ok, err, require, of_option, >>=-eq-ok, >>-eq-ok, of_option-eq-ok, require-eq-ok,
  beq→eq, is_some,
}
use myknowledgebase.Graph.{Adjacency, Marks, Trouble, cycle, visit, reverse_edges, coverage}
use myknowledgebase.Graph.Edges.{edge, Trail, Edge}
use myknowledgebase.Graph.Cycles.{visit-IsAcyclicFrom, visit-CycleFrom}
use myknowledgebase.Graph.Reached.{visit_marks_reached}
use myknowledgebase.Graph.Fuel.{visit_fuel}
use myknowledgebase.Graph.Coverage.{coverage_decides}
use myknowledgebase.Workflow.Kinds.{
  OutcomeSelector, succeeded, failed, cancelled, selector_eq, is_terminal, is_process, is_control,
}
use myknowledgebase.Workflow.Model.{StepDefinition, RouteDefinition, WorkflowDefinition, Fault}
use myknowledgebase.Workflow.Definition.{
  step_keys, terminal_keys, walked, has_route, outcomes_covered, validate_graph,
}
use myknowledgebase.Workflow.Definition.Spec.{RoutePath, IsOutcome, GraphSound}
use myknowledgebase.Workflow.Definition.Built.{
  Built, edge-route, route-edge, Trail-RoutePath, RoutePath-Trail,
}

-- What the tests of `_validate_graph` have found, with their intermediate values.
record GraphTests (d : WorkflowDefinition) (start_key : String) (adj : Adjacency String)
    : Type 0 where
  leaves : any (λ r. r.from_step_key == start_key) d.routes ≡ true
  marks : Marks String
  walk : visit (suc (length (step_keys d.steps))) adj [] start_key ≡ ok marks
  marked : all (λ s. is_some (lookup marks s.step_key)) d.steps ≡ true
  reached : List String
  worklist :
      coverage
        (length (terminal_keys d.steps) + length (step_keys d.steps))
        (reverse_edges adj [])
        (terminal_keys d.steps)
        (terminal_keys d.steps)
      ≡ some reached
  ending : all (λ s. contains reached s.step_key) d.steps ≡ true
  outcomes : all (outcomes_covered d.routes) d.steps ≡ true

walked-eq-ok : (r : Result Trouble (Marks String)) {m : Marks String} → walked r ≡ ok m → r ≡ ok m
walked-eq-ok (ok m) h = cc
walked-eq-ok (err cycle) h = cc
walked-eq-ok (err Trouble.out_of_fuel) h = cc

validate_graph-GraphTests :
    (d : WorkflowDefinition) (start_key : String) (adj : Adjacency String)
    → validate_graph d start_key adj ≡ ok tt
    → GraphTests d start_key adj
unfolding validate_graph
validate_graph-GraphTests d start_key adj h =
    let a =
      >>-eq-ok
        (require (any (λ r. r.from_step_key == start_key) d.routes) Fault.start_without_route) _
        h in
    let b = >>=-eq-ok (walked (visit (suc (length (step_keys d.steps))) adj [] start_key)) _ a.1 in
    let c =
      >>-eq-ok (require (all (λ s. is_some (lookup b.0 s.step_key)) d.steps) Fault.step_unreachable)
        _ b.2 in
    let f =
      >>=-eq-ok
        (of_option
          (coverage (length (terminal_keys d.steps) + length (step_keys d.steps))
            (reverse_edges adj []) (terminal_keys d.steps) (terminal_keys d.steps))
          Fault.out_of_fuel)
        _ c.1 in
    let g =
      >>-eq-ok (require (all (λ s. contains f.0 s.step_key) d.steps) Fault.step_without_terminal)
        (require (all (outcomes_covered d.routes) d.steps) Fault.outcome_uncovered) f.2 in
    record {
      leaves = require-eq-ok _ Fault.start_without_route a.0;
      marks = b.0;
      walk = walked-eq-ok _ b.1;
      marked = require-eq-ok _ Fault.step_unreachable c.0;
      reached = f.0;
      worklist = of_option-eq-ok _ Fault.out_of_fuel f.1;
      ending = require-eq-ok _ Fault.step_without_terminal g.0;
      outcomes = require-eq-ok _ Fault.outcome_uncovered g.1;
    }

GraphTests-validate_graph :
    (d : WorkflowDefinition) (start_key : String) (adj : Adjacency String)
    → GraphTests d start_key adj
    → validate_graph d start_key adj ≡ ok tt
unfolding validate_graph
GraphTests-validate_graph d start_key adj t =
    rw (t.leaves, t.walk, t.marked, t.worklist, t.ending, t.outcomes) refl

module _ (d : WorkflowDefinition) (adj : Adjacency String) (b : Built d adj)
    (start : StepDefinition) (m0 : Memᴰ start d.steps) where
  pub inside_to :
      (k t : String) → Memᴰ k (step_keys d.steps) → Edge adj k t → Memᴰ t (step_keys d.steps)
  inside_to k t m x =
      let r = edge-route b (mem-contains _ x) in
      let s = b.to_step r.0 r.1 in
      subst (λ w. Memᴰ w (step_keys d.steps)) (s.1.1 ∙ r.3)
        (mem-map (λ s. s.step_key) d.steps s.1.0)

  pub inside_from : (s t : String) → edge adj s t ≡ true → contains (step_keys d.steps) s ≡ true
  inside_from s t x =
      let r = edge-route b x in
      let q = b.from_step r.0 r.1 in
      mem-contains (step_keys d.steps) (
        subst (λ w. Memᴰ w (step_keys d.steps)) (q.1.1 ∙ r.2)
          (mem-map (λ s. s.step_key) d.steps q.1.0))

  terminal_found :
      {k : String}
      → contains (terminal_keys d.steps) k ≡ true
      → (t : StepDefinition) × Memᴰ t d.steps × (is_terminal t.step_kind ≡ true) × (t.step_key ≡ k)
  terminal_found {k} h =
      let r =
        mem_of_map (λ s. s.step_key) (keep (λ s. is_terminal s.step_kind) d.steps)
          (contains-mem (terminal_keys d.steps) k h) in
      let q = keep-mem (λ s. is_terminal s.step_kind) d.steps r.1 in (r.0, q.0, q.1, r.2)

  found_terminal :
      (t : StepDefinition)
      → Memᴰ t d.steps
      → is_terminal t.step_kind ≡ true
      → contains (terminal_keys d.steps) t.step_key ≡ true
  found_terminal t m h = mem-contains (terminal_keys d.steps) (
      mem-map (λ s. s.step_key) (keep (λ s. is_terminal s.step_kind) d.steps)
        (mem-keep (λ s. is_terminal s.step_kind) d.steps m h))

  route_found :
      (key : String) (o : OutcomeSelector)
      → has_route d.routes key o ≡ true
      → (r : RouteDefinition) × Memᴰ r d.routes × (r.from_step_key ≡ key) × (r.outcome_selector ≡ o)
  route_found key o h =
      let r = any-mem (λ r. (r.from_step_key == key) && (r.outcome_selector == o)) d.routes h in
      (
        r.0,
        r.1,
        beq→eq r.0.from_step_key key (ground (arith, r.2)),
        beq→eq r.0.outcome_selector o (ground (arith, r.2)),
      )

  GraphTests-GraphSound : GraphTests d start.step_key adj → GraphSound d start.step_key
  GraphTests-GraphSound t =
      let cover =
        coverage_decides (step_keys d.steps) (terminal_keys d.steps) adj inside_from b.uniform in
      let same : cover.0 ≡ t.reached = cc (cover.1, t.worklist) in
      let reach = λ (s : StepDefinition) (m : Memᴰ s d.steps).
        (visit_marks_reached _ adj start.step_key t.walk s.step_key).0
          (all-mem (λ s. is_some (lookup t.marks s.step_key)) d.steps t.marked m) in
      record {
        leaves =
            let r = any-mem (λ r. r.from_step_key == start.step_key) d.routes t.leaves in
            (r.0, r.1, beq→eq r.0.from_step_key start.step_key r.2);
        acyclic = λ s r m n e p.
            visit-IsAcyclicFrom _ adj start.step_key t.walk s.step_key (reach s m) (
              r.to_step_key,
              contains-mem _ r.to_step_key
                  (subst (λ w. edge adj w r.to_step_key ≡ true) e (route-edge b r n)),
              RoutePath-Trail b p,
            );
        reachable = λ s m. Trail-RoutePath b (reach s m);
        ends = λ s m.
            let q = (cover.2 s.step_key).0 (
              subst (λ w. contains w s.step_key ≡ true) (sym same)
                (all-mem (λ s. contains t.reached s.step_key) d.steps t.ending m)) in
            let z = terminal_found q.1 in
            (z.0, z.1, z.2, Trail-RoutePath b (subst (λ w. Trail adj s.step_key w) (sym z.3) q.2));
        covered = λ s o m k i.
            route_found s.step_key o
              (ground (arith, all-mem (outcomes_covered d.routes) d.steps t.outcomes m, i));
      }

  walk_succeeds :
      GraphSound d start.step_key
      → (m : Marks String) × (visit (suc (length (step_keys d.steps))) adj [] start.step_key ≡ ok m)
  walk_succeeds g = by_result (visit (suc (length (step_keys d.steps))) adj [] start.step_key) refl
    where
      by_result :
          (r : Result Trouble (Marks String))
          → visit (suc (length (step_keys d.steps))) adj [] start.step_key ≡ r
          → (m : Marks String) × (visit (suc (length (step_keys d.steps))) adj [] start.step_key
              ≡ ok m)
      by_result (ok m) e = (m, e)
      by_result (err cycle) e =
          let (x, p, (t, y, q)) =
            visit-CycleFrom (suc (length (step_keys d.steps))) adj start.step_key e in
          let r = edge-route b (mem-contains _ y) in
          let s = b.from_step r.0 r.1 in
          absurd (
            g.acyclic s.0 r.0 s.1.0 r.1 (sym s.1.1) (
              subst (λ w. RoutePath d.routes r.0.to_step_key w) (sym (s.1.1 ∙ r.2))
                (subst (λ w. RoutePath d.routes w x) (sym r.3) (Trail-RoutePath b q))))
      by_result (err Trouble.out_of_fuel) e = absurd (
          visit_fuel (step_keys d.steps) adj inside_to start.step_key
            (mem-map (λ s. s.step_key) d.steps m0) e)

  GraphSound-GraphTests : GraphSound d start.step_key → GraphTests d start.step_key adj
  GraphSound-GraphTests g =
      let walk = walk_succeeds g in
      let cover =
        coverage_decides (step_keys d.steps) (terminal_keys d.steps) adj inside_from b.uniform in
      record {
        leaves =
            mem-any (λ r. r.from_step_key == start.step_key) d.routes g.leaves.1
              ((string_eq.test_iff g.leaves.0.from_step_key start.step_key).1 g.leaves.2);
        marks = walk.0;
        walk = walk.1;
        marked = all-of_mem _ d.steps (λ s m.
            (visit_marks_reached _ adj start.step_key walk.1 s.step_key).1
              (RoutePath-Trail b (g.reachable s m)));
        reached = cover.0;
        worklist = cover.1;
        ending = all-of_mem _ d.steps (λ s m.
            let e = g.ends s m in
            (cover.2 s.step_key).1
              (e.0.step_key, found_terminal e.0 e.1 e.2, RoutePath-Trail b e.3));
        outcomes = all-of_mem _ d.steps (λ s m. covered_step g s m);
      }
    where
      has :
          (g : GraphSound d start.step_key) (s : StepDefinition) (o : OutcomeSelector)
          → Memᴰ s d.steps
          → (is_process s.step_kind || is_control s.step_kind) ≡ true
          → IsOutcome o
          → has_route d.routes s.step_key o ≡ true
      has g s o m k i =
          let r = g.covered s o m k i in
          mem-any (λ r. (r.from_step_key == s.step_key) && (r.outcome_selector == o)) d.routes r.1
            (ground (
              arith,
              (string_eq.test_iff r.0.from_step_key s.step_key).1 r.2,
              (selector_eq.test_iff r.0.outcome_selector o).1 r.3,
            ))

      covered_step :
          (g : GraphSound d start.step_key) (s : StepDefinition)
          → Memᴰ s d.steps
          → outcomes_covered d.routes s ≡ true
      covered_step g s m = elim (Bool-cases (is_process s.step_kind || is_control s.step_kind)) [
        | inr q ↦ rw q refl
        | inl p ↦
            rw
              (
                p,
                has g s succeeded m p (inl refl),
                has g s failed m p (inr (inl refl)),
                has g s cancelled m p (inr (inr refl)),
              )
              refl
      ]

  -- For a declared start step and the adjacency of the declared routes, the checks of the graph raise
  -- nothing exactly if the graph is sound: the start step has a route, no step lies on a cycle, every
  -- step is reached from the start step and reaches a terminal one, and the process and control steps
  -- have the routes that their outcomes ask for.
  pub validate_graph_iff_GraphSound :
      (validate_graph d start.step_key adj ≡ ok tt) ↔ GraphSound d start.step_key
  validate_graph_iff_GraphSound = (
    λ h. GraphTests-GraphSound (validate_graph-GraphTests d start.step_key adj h),
    λ g. GraphTests-validate_graph d start.step_key adj (GraphSound-GraphTests g),
  )
