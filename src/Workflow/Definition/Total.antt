-- ===== src/Workflow/Definition/Total.antt =====
-- Validation always ends with a verdict: no fuel that the model gives to a walk runs out.
use myknowledgebase.Prelude.{
  ◌>>=◌, pair_eq, nat_eq, bool_eq, ◌||◌, refuse, mem-map, String, ◌≡◌, ◌≢◌, refl, subst, ◌+◌, suc,
  Option, some, none, List, [], ◌∷◌, Memᴰ, arith, ◌==◌, string_eq, any, all, is_some, contains,
  lookup, length, Result, ok, err, require, of_option, fold_ok, distinct, map,
}
use myknowledgebase.Graph.{
  Adjacency, Marks, Trouble, cycle, visit, reverse_edges, coverage, can_reach,
}
use myknowledgebase.Graph.Search.{can_reach_decides}
use myknowledgebase.Graph.Fuel.{visit_fuel}
use myknowledgebase.Graph.Coverage.{coverage_decides}
use myknowledgebase.Workflow.Kinds.{BindingSourceKind, prior_output}
use myknowledgebase.Workflow.Model.{
  PortDefinition, StepDefinition, RouteDefinition, BindingDefinition, WorkflowDefinition, Fault,
}
use myknowledgebase.Workflow.Definition.{
  target_key, input_ports, is_terminal_route, priority_key, is_terminal, is_process, is_control,
  selector_eq, steps_by_key, output_port, unique_steps, unique_context_slots, unique_guards,
  required_process_keys, RouteState, route_step, no_routes, validate_routes, step_keys,
  terminal_keys, walked, validate_graph, upstream, binding_source, binding_step, validate_bindings,
  validate_definition,
}
use myknowledgebase.Workflow.Definition.Built.{Built, validate_routes-Built}
use myknowledgebase.Workflow.Definition.Accepts.{inside_to, inside_from}
use myknowledgebase.Workflow.Definition.Loaded.{unique_steps-StartStep}

abbrev Decided {ℓ} : {A : Type ℓ} → Result Fault A → Type ℓ
Decided r = r ≢ err Fault.out_of_fuel

Decided-bind {ℓ κ} :
    {A : Type ℓ} {B : Type κ} (m : Result Fault A) (f : A → Result Fault B)
    → Decided m
    → ((a : A) → m ≡ ok a → Decided (f a))
    → Decided (m >>= f)
Decided-bind (ok a) f dm df h = df a refl h
Decided-bind (err e) f dm df h = dm (cc)

Decided-fold {ℓ κ} :
    {S : Type ℓ} {A : Type κ} (step : S → A → Result Fault S)
    → ((s : S) (a : A) → Decided (step s a))
    → (xs : List A) (s : S) → Decided (fold_ok step s xs)
Decided-fold step ds [] s h = cc
Decided-fold step ds (x ∷ xs) s h =
    Decided-bind (step s x) (λ t. fold_ok step t xs) (ds s x) (λ t e. Decided-fold step ds xs t) h

route_step-Decided :
    (d : WorkflowDefinition) (start_key : String) (st : RouteState) (r : RouteDefinition)
    → Decided (route_step d start_key st r)
unfolding route_step
route_step-Decided d start_key st r =
    Decided-bind
      (of_option (lookup (steps_by_key d.steps) r.from_step_key) Fault.route_unknown_step) _
      (λ h. ground arith)
      λ source e1.
        Decided-bind
          (of_option (lookup (steps_by_key d.steps) r.to_step_key) Fault.route_unknown_step) _
          (λ h. ground arith)
          λ target e2.
            Decided-bind (refuse (r.from_step_key == r.to_step_key) Fault.route_self_edge) _
              (λ h. ground arith)
              λ u3 e3.
                Decided-bind (refuse (is_terminal source.step_kind) Fault.route_from_terminal) _
                  (λ h. ground arith)
                  λ u4 e4.
                    Decided-bind
                      (refuse (contains st.selector_priorities (priority_key r))
                        Fault.route_priority_ambiguous)
                      _ (λ h. ground arith)
                      λ u5 e5.
                        Decided-bind
                          (require (is_terminal_route r.route_kind == is_terminal target.step_kind)
                            Fault.route_terminal_mismatch)
                          _ (λ h. ground arith) λ u6 e6 h. ground arith

validate_routes-Decided :
    (d : WorkflowDefinition) (start_key : String) → Decided (validate_routes d start_key)
unfolding validate_routes
validate_routes-Decided d start_key =
    Decided-bind (require (distinct (map (λ r. r.route_key) d.routes)) Fault.route_keys_repeat) _
      (λ h. ground arith)
      λ u e.
        Decided-bind (fold_ok (route_step d start_key) no_routes d.routes) _
          (Decided-fold (route_step d start_key) (route_step-Decided d start_key) d.routes
            no_routes)
          λ st e' h. ground arith

walked-Decided :
    (r : Result Trouble (Marks String)) → r ≢ err Trouble.out_of_fuel → Decided (walked r)
walked-Decided (ok m) n h = cc
walked-Decided (err cycle) n h = cc
walked-Decided (err Trouble.out_of_fuel) n h = n refl

of_option-Decided {ℓ} :
    {A : Type ℓ} (o : Option A) → o ≢ none → Decided (of_option o Fault.out_of_fuel)
of_option-Decided none n h = n refl
of_option-Decided (some a) n h = cc

validate_graph-Decided :
    (d : WorkflowDefinition) (adj : Adjacency String) (b : Built d adj) (start : StepDefinition)
    → Memᴰ start d.steps
    → Decided (validate_graph d start.step_key adj)
unfolding validate_graph
validate_graph-Decided d adj b start m =
    Decided-bind
      (require (any (λ r. r.from_step_key == start.step_key) d.routes) Fault.start_without_route) _
      (λ h. ground arith)
      λ u e.
        Decided-bind (walked (visit (suc (length (step_keys d.steps))) adj [] start.step_key)) _
          (walked-Decided _ (
            visit_fuel (step_keys d.steps) adj (inside_to d adj b start m) start.step_key
              (mem-map (λ s. s.step_key) d.steps m)))
          λ marks e'.
            Decided-bind
              (require (all (λ s. is_some (lookup marks s.step_key)) d.steps)
                Fault.step_unreachable)
              _ (λ h. ground arith)
              λ v f.
                let cover =
                  coverage_decides (step_keys d.steps) (terminal_keys d.steps) adj
                    (inside_from d adj b start m) b.uniform in
                Decided-bind
                  (of_option
                    (coverage (length (terminal_keys d.steps) + length (step_keys d.steps))
                      (reverse_edges adj []) (terminal_keys d.steps) (terminal_keys d.steps))
                    Fault.out_of_fuel)
                  _ (of_option-Decided _ (λ n. cc (cover.1, n))) λ reached f' h. ground arith

upstream-Decided :
    (adj : Adjacency String) (source : Option String) (target : String)
    → Decided (upstream adj source target)
upstream-Decided adj none target h = cc
upstream-Decided adj (some s) target h =
    Decided-bind (of_option (can_reach adj s target) Fault.out_of_fuel) _
      (of_option-Decided _ (can_reach_decides adj s target).0) (λ found e h'. ground arith) h

binding_source-Decided :
    (d : WorkflowDefinition) (adj : Adjacency String) (k : BindingSourceKind)
    (b : BindingDefinition) (target : PortDefinition)
    → Decided (binding_source d adj k b target)
unfolding binding_source
binding_source-Decided d adj prior_output b target h =
    Decided-bind
      (of_option (output_port d.steps b.source_step_key b.source_port_name)
        Fault.binding_source_port)
      _ (λ h'. ground arith)
      (λ source e.
        Decided-bind (upstream adj b.source_step_key b.target_step_key) _
          (upstream-Decided adj b.source_step_key b.target_step_key) (λ u e' h'. ground arith))
      h
binding_source-Decided d adj k b target h = ground arith

binding_step-Decided :
    (d : WorkflowDefinition) (adj : Adjacency String) (bound : List (String × String))
    (b : BindingDefinition)
    → Decided (binding_step d adj bound b)
unfolding binding_step
binding_step-Decided d adj bound b =
    Decided-bind
      (of_option (lookup (steps_by_key d.steps) b.target_step_key) Fault.binding_target_kind) _
      (λ h. ground arith)
      λ target e1.
        Decided-bind
          (require (is_process target.step_kind || is_control target.step_kind)
            Fault.binding_target_kind)
          _ (λ h. ground arith)
          λ u e2.
            Decided-bind
              (of_option (lookup (input_ports d.steps) (target_key b)) Fault.binding_target_port) _
              (λ h. ground arith)
              λ port e3.
                Decided-bind (refuse (contains bound (target_key b)) Fault.binding_repeated) _
                  (λ h. ground arith)
                  λ v e4.
                    Decided-bind (binding_source d adj b.source_kind b port) _
                      (binding_source-Decided d adj b.source_kind b port) λ w e5 h. cc

validate_bindings-Decided :
    (d : WorkflowDefinition) (adj : Adjacency String) → Decided (validate_bindings d adj)
unfolding validate_bindings
validate_bindings-Decided d adj =
    Decided-bind (fold_ok (binding_step d adj) [] d.bindings) _
      (Decided-fold (binding_step d adj) (binding_step-Decided d adj) d.bindings [])
      λ bound e h. ground arith

unique_steps-Decided : (steps : List StepDefinition) → Decided (unique_steps steps)
unfolding unique_steps
unique_steps-Decided steps h = ground arith

required_process_keys-Decided : (d : WorkflowDefinition) → Decided (required_process_keys d)
unfolding required_process_keys
required_process_keys-Decided d h = ground arith

-- Validation of any definition ends in acceptance or in one of the errors that the code raises: the
-- walk of the graph, the coverage worklist and every upstream search end within their fuel.
pub validate_definition_total :
    (d : WorkflowDefinition) → validate_definition d ≢ err Fault.out_of_fuel
unfolding validate_definition
validate_definition_total d =
    Decided-bind (unique_steps d.steps) _ (unique_steps-Decided d.steps) λ start_key e1.
      let start = unique_steps-StartStep d e1 in
      Decided-bind (unique_context_slots d.context_slots) _ (λ h. ground arith)
        λ u e2.
          Decided-bind (unique_guards d.guards) _ (λ h. ground arith)
            λ v e3.
              Decided-bind (required_process_keys d) _ (required_process_keys-Decided d) λ w e4.
                Decided-bind (validate_routes d start_key) _ (validate_routes-Decided d start_key)
                  λ adj e5.
                    Decided-bind (validate_graph d start_key adj) _
                      (subst (λ k. Decided (validate_graph d k adj)) start.named
                        (validate_graph-Decided d adj (validate_routes-Built d start_key e5)
                          start.step start.declared))
                      λ x e6. validate_bindings-Decided d adj
