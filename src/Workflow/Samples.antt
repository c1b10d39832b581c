-- ===== src/Workflow/Samples.antt =====
-- A small workflow for the examples: start, one process, one terminal for each outcome.
use myknowledgebase.Prelude.{
  false, ◌↔◌, ◌≢◌, Memᴰ, distinct, map, lookup, string_eq, pair_eq, nat_eq, option_eq, String, none,
  some, true, [], ◌∷◌, ◌≡◌, refl, ok, err,
}
use myknowledgebase.Graph.{visit, add_edge, reverse_edges, coverage, can_reach}
use myknowledgebase.Workflow.Kinds
use myknowledgebase.Workflow.Kinds.{
  is_terminal, is_terminal_route, selector_eq, StepKind, RouteKind, JoinMode, OutcomeSelector,
  TerminalKind,
}
use myknowledgebase.Workflow.Model.{
  PortDefinition, StepDefinition, RouteDefinition, BindingDefinition, WorkflowDefinition, Fault,
}
use myknowledgebase.Workflow.Definition.{
  validate, validate_definition, validate_graph, output_port, input_ports, target_key, priority_key,
}
use myknowledgebase.Workflow.Shapes.{compatible_ports, step_shape, slot_names}
use myknowledgebase.Workflow.Shapes.Fields.{FieldsOfKind, step_shape-FieldsOfKind}
use myknowledgebase.Workflow.Definition.Spec.{GraphSound, RoutePath}
use myknowledgebase.Workflow.Definition.Built.{validate_routes-Built, StepOf}
use myknowledgebase.Workflow.Definition.Accepts.{validate_graph_iff_GraphSound}
use myknowledgebase.Workflow.Definition.Loaded.{
  Loaded, StartStep, validate_definition-Loaded, validate_definition-GraphSound,
}
use myknowledgebase.Workflow.Definition.Bindings.{
  validate_definition-bound_once, validate_definition-upstream,
}
use myknowledgebase.Workflow.Definition.RouteRules.{validate_definition-route_rules}
use myknowledgebase.Workflow.Definition.Total.{validate_definition_total}

abbrev pub source_port : PortDefinition
source_port = record {
  slot_name = "source";
  value_type = Kinds.logical_ref;
  schema_ref = "mkb.source";
  required = true;
  multiplicity = Kinds.one;
}

abbrev bare : String → StepKind → StepDefinition
bare key kind = record {
  step_key = key;
  step_kind = kind;
  requiredness = Kinds.required;
  process_key = none;
  contract_version = none;
  phase_key = none;
  required_proof_kind = none;
  control_key = none;
  control_version = none;
  control_fallback_port = none;
  input_ports = [];
  output_ports = [];
  terminal_kind = none;
}

abbrev terminal_step : String → TerminalKind → StepDefinition
terminal_step key kind = record (bare key StepKind.terminal) { terminal_kind = some kind }

abbrev clean_step : StepDefinition
clean_step = record (bare "clean" StepKind.process) {
  process_key = some "clean.text";
  contract_version = some "v1";
  phase_key = some Kinds.cleaning;
  required_proof_kind = some "clean.proof";
  input_ports = source_port ∷ [];
  output_ports = source_port ∷ [];
}

abbrev route : String → String → String → RouteKind → OutcomeSelector → RouteDefinition
route key source target kind outcome = record {
  route_key = key;
  from_step_key = source;
  to_step_key = target;
  route_kind = kind;
  outcome_selector = outcome;
  priority = 10;
  guard_key = none;
  join_mode = JoinMode.none;
}

abbrev source_binding : BindingDefinition
source_binding = record {
  target_step_key = "clean";
  target_slot_name = "source";
  source_kind = Kinds.execution_context;
  source_ref_key = some "source";
  source_step_key = none;
  source_port_name = none;
}

abbrev pub sample : WorkflowDefinition
sample = record {
  workflow_key = "sample";
  revision_number = 1;
  purpose_key = "intake.ingest";
  execution_role = Kinds.single_root;
  context_slots = source_port ∷ [];
  required_process_keys = "clean.text" ∷ [];
  steps =
      bare "start" StepKind.start
      ∷ clean_step
      ∷ terminal_step "done" Kinds.success
      ∷ terminal_step "failed" Kinds.failure
      ∷ terminal_step "cancelled" TerminalKind.cancelled
      ∷ [];
  routes =
      route "r1" "start" "clean" RouteKind.normal Kinds.always
      ∷ route "r2" "clean" "done" RouteKind.terminal Kinds.succeeded
      ∷ route "r3" "clean" "failed" RouteKind.terminal Kinds.failed
      ∷ route "r4" "clean" "cancelled" RouteKind.terminal OutcomeSelector.cancelled
      ∷ [];
  bindings = source_binding ∷ [];
  guards = [];
}

pub sample_validates : validate sample ≡ ok tt
unfolding validate visit add_edge reverse_edges coverage can_reach Kinds.OutcomeSelector-discrete
    Kinds.ValueType-discrete Kinds.Multiplicity-discrete
sample_validates = refl

-- The same workflow with its input port unbound is refused.
unbound_refused : validate (record sample { bindings = [] }) ≡ err Fault.required_port_unbound
unfolding validate visit add_edge reverse_edges coverage can_reach Kinds.OutcomeSelector-discrete
    Kinds.ValueType-discrete Kinds.Multiplicity-discrete
unbound_refused = refl

definition_validates : validate_definition sample ≡ ok tt
unfolding validate_definition visit add_edge reverse_edges coverage can_reach
    Kinds.OutcomeSelector-discrete Kinds.ValueType-discrete Kinds.Multiplicity-discrete
definition_validates = refl

sample_loaded : Loaded sample
sample_loaded = validate_definition-Loaded sample definition_validates

validate_graph_iff_GraphSound_example :
    (validate_graph sample "start" sample_loaded.adjacency ≡ ok tt) ↔ GraphSound sample "start"
validate_graph_iff_GraphSound_example =
    validate_graph_iff_GraphSound sample sample_loaded.adjacency
      (validate_routes-Built sample sample_loaded.start_key sample_loaded.routes)
      (bare "start" StepKind.start) (Memᴰ.head refl)

validate_definition-GraphSound_example :
    (key : String) × StartStep sample key × GraphSound sample key
validate_definition-GraphSound_example = validate_definition-GraphSound sample definition_validates

validate_definition_total_example : validate_definition sample ≢ err Fault.out_of_fuel
validate_definition_total_example = validate_definition_total sample

abbrev copy_step : StepDefinition
copy_step = record clean_step { step_key = "copy"; process_key = some "clean.copy" }

abbrev output_binding : BindingDefinition
output_binding = record {
  target_step_key = "copy";
  target_slot_name = "source";
  source_kind = Kinds.prior_output;
  source_ref_key = none;
  source_step_key = some "clean";
  source_port_name = some "source";
}

-- The sample with a second process, fed by the first.
abbrev chained : WorkflowDefinition
chained = record sample {
  required_process_keys = "clean.text" ∷ "clean.copy" ∷ [];
  steps =
      bare "start" StepKind.start
      ∷ clean_step
      ∷ copy_step
      ∷ terminal_step "done" Kinds.success
      ∷ terminal_step "failed" Kinds.failure
      ∷ terminal_step "cancelled" TerminalKind.cancelled
      ∷ [];
  routes =
      route "r1" "start" "clean" RouteKind.normal Kinds.always
      ∷ route "r2" "clean" "copy" RouteKind.normal Kinds.succeeded
      ∷ route "r3" "clean" "failed" RouteKind.terminal Kinds.failed
      ∷ route "r4" "clean" "cancelled" RouteKind.terminal OutcomeSelector.cancelled
      ∷ route "r5" "copy" "done" RouteKind.terminal Kinds.succeeded
      ∷ route "r6" "copy" "failed" RouteKind.terminal Kinds.failed
      ∷ route "r7" "copy" "cancelled" RouteKind.terminal OutcomeSelector.cancelled
      ∷ [];
  bindings = source_binding ∷ output_binding ∷ [];
}

chained_validates : validate_definition chained ≡ ok tt
unfolding validate_definition visit add_edge reverse_edges coverage can_reach
    Kinds.OutcomeSelector-discrete Kinds.ValueType-discrete Kinds.Multiplicity-discrete
chained_validates = refl

validate_definition-upstream_example :
    (s : String) × (source : PortDefinition) × (target : PortDefinition)
    × (output_binding.source_step_key ≡ some s)
    × (s ≢ "copy")
    × RoutePath chained.routes s "copy"
    × (output_port chained.steps output_binding.source_step_key output_binding.source_port_name
        ≡ some source)
    × (lookup (input_ports chained.steps) (target_key output_binding) ≡ some target)
    × (compatible_ports source target ≡ ok tt)
validate_definition-upstream_example =
    validate_definition-upstream chained output_binding chained_validates
      (Memᴰ.tail (Memᴰ.head refl)) refl

validate_definition-bound_once_example :
    (distinct (map target_key chained.bindings) ≡ true)
    × ((s : StepDefinition) (p : PortDefinition)
        → Memᴰ s chained.steps
        → Memᴰ p s.input_ports
        → p.required ≡ true
        → (b : BindingDefinition) × Memᴰ b chained.bindings
          × (b.target_step_key ≡ s.step_key)
          × (b.target_slot_name ≡ p.slot_name))
validate_definition-bound_once_example = validate_definition-bound_once chained chained_validates

validate_definition-route_rules_example :
    (distinct (map priority_key chained.routes) ≡ true)
    × ((r : RouteDefinition)
        → Memᴰ r chained.routes
        → (source : StepOf chained r.from_step_key) × (target : StepOf chained r.to_step_key)
          × (r.from_step_key ≢ r.to_step_key)
          × (is_terminal source.0.step_kind ≡ false)
          × (is_terminal_route r.route_kind ≡ is_terminal target.0.step_kind))
validate_definition-route_rules_example = validate_definition-route_rules chained chained_validates

clean_step_passes : step_shape clean_step ≡ ok tt
unfolding step_shape
clean_step_passes = refl

step_shape-FieldsOfKind_example :
    (distinct (slot_names clean_step.input_ports) ≡ true)
    × (distinct (slot_names clean_step.output_ports) ≡ true)
    × FieldsOfKind StepKind.process clean_step
step_shape-FieldsOfKind_example = step_shape-FieldsOfKind clean_step clean_step_passes
