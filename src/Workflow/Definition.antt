-- ===== src/Workflow/Definition.antt =====
-- `WorkflowDefinition.validate_definition` of src/contracts/workflow/models.py and its parts.
-- Fuel: a walk is as deep as there are steps at most, and the worklists end as Graph/ proves.
pub mod Routes
pub mod Spec
pub mod Built
pub mod Accepts
pub mod Loaded
pub mod Bindings
pub mod RouteRules
pub mod Total
use myknowledgebase.Prelude.{
  ℕ, suc, ◌+◌, String, Bool, true, false, not, ◌&&◌, ◌||◌, Option, none, some, List, [], ◌∷◌, ◌++◌,
  map, Eq, ◌==◌, string_eq, nat_eq, bool_eq, pair_eq, is_some, any, all, keep, length, contains,
  distinct, add, lookup, Result, ok, err, ◌>>=◌, ◌>>◌, require, refuse, of_option, each, fold_ok,
  if◌then◌else◌,
}
use myknowledgebase.Graph.{
  Adjacency, Marks, Trouble, cycle, add_edge, visit, reverse_edges, coverage, can_reach,
}
use myknowledgebase.Workflow.Kinds.{
  OutcomeSelector, succeeded, failed, cancelled, selector_eq, BindingSourceKind, execution_context,
  prior_output, is_process, is_control, is_start, is_terminal, is_required, is_terminal_route,
  is_always,
}
use myknowledgebase.Workflow.Model
use myknowledgebase.Workflow.Model.{
  PortDefinition, StepDefinition, RouteDefinition, GuardDefinition, BindingDefinition,
  WorkflowDefinition, Fault,
}
use myknowledgebase.Workflow.Shapes.{
  Check, step_shape, route_shape, binding_shape, compatible_ports,
}
use myknowledgebase.Workflow.Guards.{guard_value}

abbrev pub StepsByKey : Type 0
StepsByKey = List (String × StepDefinition)

abbrev pub steps_by_key : List StepDefinition → StepsByKey
steps_by_key = map (λ s. (s.step_key, s))

abbrev pub step_keys : List StepDefinition → List String
step_keys = map (λ s. s.step_key)

abbrev start_keys : List StepDefinition → List String
start_keys steps = step_keys (keep (λ s. is_start s.step_kind) steps)

abbrev pub terminal_keys : List StepDefinition → List String
terminal_keys steps = step_keys (keep (λ s. is_terminal s.step_kind) steps)

abbrev only_one : List String → Option String
only_one (k ∷ []) = some k
only_one _ = none

-- `_unique_steps`; it returns the key of the only start step, which the later parts look up again.
pub unique_steps : List StepDefinition → Result Fault String
unique_steps steps = do
  require (distinct (step_keys steps)) Fault.step_keys_repeat
  start_key ← of_option (only_one (start_keys steps)) Fault.not_one_start
  require (any (λ s. is_terminal s.step_kind) steps) Fault.no_terminal
  ok start_key

-- `_unique_context_slots`
pub unique_context_slots : List PortDefinition → Check
unique_context_slots slots =
    require (distinct (map (λ p. p.slot_name) slots)) Fault.context_slots_repeat

-- `_unique_guards`
pub unique_guards : List GuardDefinition → Check
unique_guards guards = require (distinct (map (λ g. g.guard_key) guards)) Fault.guard_keys_repeat

-- `set(a) == set(b)`
abbrev same_set {ℓ} : {A : Type ℓ} ⦃e : Eq A⦄ → List A → List A → Bool
same_set xs ys = all (contains ys) xs && all (contains xs) ys

-- The process keys of the required process steps, `None` among them if one is absent.
abbrev pub required_keys : List StepDefinition → List (Option String)
required_keys steps =
    map (λ s. s.process_key)
      (keep (λ s. is_process s.step_kind && is_required s.requiredness) steps)

abbrev known : List (Option String) → List String
known [] = []
known (none ∷ keys) = known keys
known (some k ∷ keys) = k ∷ known keys

-- `_validate_required_process_keys`
pub required_process_keys : WorkflowDefinition → Check
required_process_keys d = do
  require (distinct d.required_process_keys) Fault.process_keys_repeat
  require (all is_some (required_keys d.steps)) Fault.process_key_absent
  require (same_set d.required_process_keys (known (required_keys d.steps)))
      Fault.process_keys_differ

-- The variables of the loop of `_validate_routes`.
pub record RouteState : Type 0 where
  pub adjacency : Adjacency String
  pub selector_priorities : List (String × (OutcomeSelector × ℕ))
  pub referenced_guards : List String

-- The guard of a route, if it has one, is registered; it is then referenced.
reference_guard : List GuardDefinition → Option String → List String → Result Fault (List String)
reference_guard guards none referenced = ok referenced
reference_guard guards (some key) referenced = do
  require (contains (map (λ g. g.guard_key) guards) key) Fault.guard_unknown
  ok (add key referenced)

abbrev pub priority_key : RouteDefinition → String × (OutcomeSelector × ℕ)
priority_key r = (r.from_step_key, (r.outcome_selector, r.priority))

-- The body of the loop of `_validate_routes`.
pub route_step :
    WorkflowDefinition → String → RouteState → RouteDefinition → Result Fault RouteState
unfolding reference_guard
route_step d start_key st r = do
  source ← of_option (lookup (steps_by_key d.steps) r.from_step_key) Fault.route_unknown_step
  target ← of_option (lookup (steps_by_key d.steps) r.to_step_key) Fault.route_unknown_step
  refuse (r.from_step_key == r.to_step_key) Fault.route_self_edge
  refuse (is_terminal source.step_kind) Fault.route_from_terminal
  refuse (contains st.selector_priorities (priority_key r)) Fault.route_priority_ambiguous
  require (is_terminal_route r.route_kind == is_terminal target.step_kind)
      Fault.route_terminal_mismatch
  refuse (is_always r.outcome_selector && is_some r.guard_key && not (r.from_step_key == start_key))
      Fault.guarded_always
  referenced ← reference_guard d.guards r.guard_key st.referenced_guards
  ok (record {
    adjacency = add_edge r.from_step_key r.to_step_key st.adjacency;
    selector_priorities = add (priority_key r) st.selector_priorities;
    referenced_guards = referenced;
  })

abbrev pub no_routes : RouteState
no_routes = record { adjacency = []; selector_priorities = []; referenced_guards = [] }

-- `_validate_routes`
pub validate_routes : WorkflowDefinition → String → Result Fault (Adjacency String)
unfolding route_step
validate_routes d start_key = do
  require (distinct (map (λ r. r.route_key) d.routes)) Fault.route_keys_repeat
  st ← fold_ok (route_step d start_key) no_routes d.routes
  require (same_set (map (λ g. g.guard_key) d.guards) st.referenced_guards) Fault.guard_unreferenced
  ok st.adjacency

abbrev walked : Result Trouble (Marks String) → Result Fault (Marks String)
walked (ok marks) = ok marks
walked (err cycle) = err Fault.graph_cyclic
walked (err Trouble.out_of_fuel) = err Fault.out_of_fuel

-- A route leaves the step on the outcome.
abbrev has_route : List RouteDefinition → String → OutcomeSelector → Bool
has_route routes key outcome =
    any (λ r. (r.from_step_key == key) && (r.outcome_selector == outcome)) routes

abbrev pub outcomes_covered : List RouteDefinition → StepDefinition → Bool
outcomes_covered routes s =
    not (is_process s.step_kind || is_control s.step_kind)
    || (has_route routes s.step_key succeeded
        && has_route routes s.step_key failed
        && has_route routes s.step_key cancelled)

-- `_validate_graph`
pub validate_graph : WorkflowDefinition → String → Adjacency String → Check
validate_graph d start_key adjacency = do
  require (any (λ r. r.from_step_key == start_key) d.routes) Fault.start_without_route
  marks ← walked (visit (suc (length (step_keys d.steps))) adjacency [] start_key)
  require (all (λ s. is_some (lookup marks s.step_key)) d.steps) Fault.step_unreachable
  reached ←
      of_option
        (coverage (length (terminal_keys d.steps) + length (step_keys d.steps))
          (reverse_edges adjacency []) (terminal_keys d.steps) (terminal_keys d.steps))
        Fault.out_of_fuel
  require (all (λ s. contains reached s.step_key) d.steps) Fault.step_without_terminal
  require (all (outcomes_covered d.routes) d.steps) Fault.outcome_uncovered

abbrev PortsByKey : Type 0
PortsByKey = List ((String × String) × PortDefinition)

abbrev pub ports_of : String → List PortDefinition → PortsByKey
ports_of key = map (λ p. ((key, p.slot_name), p))

abbrev pub input_ports : List StepDefinition → PortsByKey
input_ports [] = []
input_ports (s ∷ steps) = ports_of s.step_key s.input_ports ++ input_ports steps

abbrev pub output_ports : List StepDefinition → PortsByKey
output_ports [] = []
output_ports (s ∷ steps) = ports_of s.step_key s.output_ports ++ output_ports steps

abbrev pub context_by_slot : List PortDefinition → List (String × PortDefinition)
context_by_slot = map (λ p. (p.slot_name, p))

-- `output_ports.get((source_step_key, source_port_name))`; no key of the dictionary holds a `None`.
abbrev pub output_port : List StepDefinition → Option String → Option String → Option PortDefinition
output_port steps (some key) (some slot) = lookup (output_ports steps) (key, slot)
output_port steps _ _ = none

-- `self._can_reach(source_step_key, target_step_key, adjacency)`
abbrev upstream : Adjacency String → Option String → String → Check
upstream adjacency none target = err Fault.binding_not_upstream
upstream adjacency (some source) target = do
  found ← of_option (can_reach adjacency source target) Fault.out_of_fuel
  require found Fault.binding_not_upstream

abbrev text_or_empty : Option String → String
text_or_empty none = ""
text_or_empty (some s) = s

abbrev compatible_if_known : Option PortDefinition → PortDefinition → Check
compatible_if_known none target = ok tt
compatible_if_known (some source) target = compatible_ports source target

-- The branches of `_validate_bindings` on the kind of the source.
binding_source :
    WorkflowDefinition
    → Adjacency String
    → BindingSourceKind
    → BindingDefinition
    → PortDefinition
    → Check
unfolding compatible_ports
binding_source d adjacency prior_output b target_port = do
  source_port ←
      of_option (output_port d.steps b.source_step_key b.source_port_name) Fault.binding_source_port
  upstream adjacency b.source_step_key b.target_step_key
  compatible_ports source_port target_port
binding_source d adjacency execution_context b target_port = do
  source_port ←
      of_option (lookup (context_by_slot d.context_slots) (text_or_empty b.source_ref_key))
        Fault.context_slot_unknown
  compatible_ports source_port target_port
binding_source d adjacency _ b target_port =
    compatible_if_known (lookup (context_by_slot d.context_slots) (text_or_empty b.source_ref_key))
      target_port

abbrev pub target_key : BindingDefinition → String × String
target_key b = (b.target_step_key, b.target_slot_name)

-- The body of the loop of `_validate_bindings`, on the set `bound_targets`.
pub binding_step :
    WorkflowDefinition
    → Adjacency String
    → List (String × String)
    → BindingDefinition
    → Result Fault (List (String × String))
unfolding binding_source
binding_step d adjacency bound b = do
  target_step ←
      of_option (lookup (steps_by_key d.steps) b.target_step_key) Fault.binding_target_kind
  require (is_process target_step.step_kind || is_control target_step.step_kind)
      Fault.binding_target_kind
  target_port ← of_option (lookup (input_ports d.steps) (target_key b)) Fault.binding_target_port
  refuse (contains bound (target_key b)) Fault.binding_repeated
  binding_source d adjacency b.source_kind b target_port
  ok (add (target_key b) bound)

-- `_validate_bindings`
pub validate_bindings : WorkflowDefinition → Adjacency String → Check
unfolding binding_step
validate_bindings d adjacency = do
  bound ← fold_ok (binding_step d adjacency) [] d.bindings
  require (all (λ p. not p.1.required || contains bound p.0) (input_ports d.steps))
      Fault.required_port_unbound

-- `validate_definition`
unfoldable pub validate_definition : WorkflowDefinition → Check
unfolding unique_steps unique_context_slots unique_guards required_process_keys validate_routes
    validate_graph validate_bindings
validate_definition d = do
  start_key ← unique_steps d.steps
  unique_context_slots d.context_slots
  unique_guards d.guards
  required_process_keys d
  adjacency ← validate_routes d start_key
  validate_graph d start_key adjacency
  validate_bindings d adjacency

-- A definition that is loaded: its records are validated before the definition is.
unfoldable pub validate : WorkflowDefinition → Check
unfolding step_shape route_shape binding_shape guard_value validate_definition
validate d = do
  each step_shape d.steps
  each route_shape d.routes
  each binding_shape d.bindings
  each guard_value d.guards
  validate_definition d
