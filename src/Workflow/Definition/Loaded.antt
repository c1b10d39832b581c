-- ===== src/Workflow/Definition/Loaded.antt =====
-- What `validate_definition` has established of a workflow that it accepts.
use mathlib.Core.List.Memᴰ
use myknowledgebase.Prelude.{
  String, ◌≡◌, refl, sym, ◌∙◌, subst, true, some, List, [], ◌∷◌, Memᴰ, string_eq, pair_eq, nat_eq,
  any, mem-map, mem_of_map, mem-keep, keep-mem, distinct, keep, ok, require, of_option, >>=-eq-ok,
  >>-eq-ok, of_option-eq-ok,
}
use myknowledgebase.Graph.{Adjacency}
use myknowledgebase.Workflow.Kinds.{is_start, is_terminal, selector_eq}
use myknowledgebase.Workflow.Model.{StepDefinition, WorkflowDefinition, Fault}
use myknowledgebase.Workflow.Definition.{
  only_one, start_keys, step_keys, unique_steps, unique_context_slots, unique_guards,
  required_process_keys, validate_routes, validate_graph, validate_bindings, validate_definition,
}
use myknowledgebase.Workflow.Definition.Spec.{GraphSound}
use myknowledgebase.Workflow.Definition.Built.{validate_routes-Built}
use myknowledgebase.Workflow.Definition.Accepts.{validate_graph_iff_GraphSound}

-- The parts of a run that raises nothing.
pub record Loaded (d : WorkflowDefinition) : Type 0 where
  pub start_key : String
  pub starts : unique_steps d.steps ≡ ok start_key
  pub process_keys : required_process_keys d ≡ ok tt
  pub adjacency : Adjacency String
  pub routes : validate_routes d start_key ≡ ok adjacency
  pub graph : validate_graph d start_key adjacency ≡ ok tt
  pub bindings : validate_bindings d adjacency ≡ ok tt

pub validate_definition-Loaded : (d : WorkflowDefinition) → validate_definition d ≡ ok tt → Loaded d
unfolding validate_definition
validate_definition-Loaded d h =
    let a = >>=-eq-ok (unique_steps d.steps) _ h in
    let b = >>-eq-ok (unique_context_slots d.context_slots) _ a.2 in
    let c = >>-eq-ok (unique_guards d.guards) _ b.1 in
    let f = >>-eq-ok (required_process_keys d) _ c.1 in
    let g = >>=-eq-ok (validate_routes d a.0) _ f.1 in
    let k = >>-eq-ok (validate_graph d a.0 g.0) (validate_bindings d g.0) g.2 in
    record {
      start_key = a.0;
      starts = a.1;
      process_keys = f.0;
      adjacency = g.0;
      routes = g.1;
      graph = k.0;
      bindings = k.1;
    }

only_one-eq-some : (ks : List String) {k : String} → only_one ks ≡ some k → ks ≡ k ∷ []
only_one-eq-some [] h = cc
only_one-eq-some (x ∷ []) h = cc
only_one-eq-some (x ∷ y ∷ ks) h = cc

-- The step with which an accepted workflow starts, and that no other step is a start.
pub record StartStep (d : WorkflowDefinition) (key : String) : Type 0 where
  pub step : StepDefinition
  pub declared : Memᴰ step d.steps
  pub is_a_start : is_start step.step_kind ≡ true
  pub named : step.step_key ≡ key
  pub only : (s : StepDefinition) → Memᴰ s d.steps → is_start s.step_kind ≡ true → s.step_key ≡ key

unique_steps-only :
    (steps : List StepDefinition) {key : String}
    → unique_steps steps ≡ ok key
    → start_keys steps ≡ key ∷ []
unfolding unique_steps
unique_steps-only steps {key} h =
    let a = >>-eq-ok (require (distinct (step_keys steps)) Fault.step_keys_repeat) _ h in
    let b = >>=-eq-ok (of_option (only_one (start_keys steps)) Fault.not_one_start) _ a.1 in
    let c =
      >>-eq-ok (require (any (λ s. is_terminal s.step_kind) steps) Fault.no_terminal) (ok b.0)
        b.2 in
    only_one-eq-some (start_keys steps)
      (of_option-eq-ok (only_one (start_keys steps)) Fault.not_one_start b.1 ∙ cc (c.1))

pub unique_steps-StartStep :
    (d : WorkflowDefinition) {key : String} → unique_steps d.steps ≡ ok key → StartStep d key
unique_steps-StartStep d {key} h =
    let e = unique_steps-only d.steps h in
    let r =
      mem_of_map (λ s. s.step_key) (keep (λ s. is_start s.step_kind) d.steps)
        (subst (λ ks. Memᴰ key ks) (sym e) (Memᴰ.head refl)) in
    let q = keep-mem (λ s. is_start s.step_kind) d.steps r.1 in
    record {
      step = r.0;
      declared = q.0;
      is_a_start = q.1;
      named = r.2;
      only = λ s m k. Memᴰ.eq_of_singleton (
          subst (λ ks. Memᴰ s.step_key ks) e
            (mem-map (λ s. s.step_key) (keep (λ s. is_start s.step_kind) d.steps)
              (mem-keep (λ s. is_start s.step_kind) d.steps m k)));
    }

-- A workflow that validation accepts has one start step, and the graph of its routes is sound from
-- there: it has no cycle, every step is reached and reaches a terminal, and the outcomes of process
-- and control steps have routes.
pub validate_definition-GraphSound :
    (d : WorkflowDefinition)
    → validate_definition d ≡ ok tt
    → (key : String) × StartStep d key × GraphSound d key
validate_definition-GraphSound d h =
    let l = validate_definition-Loaded d h in
    let s = unique_steps-StartStep d l.starts in
    (
      l.start_key,
      s,
      subst (GraphSound d) s.named (
          (validate_graph_iff_GraphSound d l.adjacency
              (validate_routes-Built d l.start_key l.routes) s.step s.declared).0
            (subst (λ k. validate_graph d k l.adjacency ≡ ok tt) (sym s.named) l.graph)),
    )
