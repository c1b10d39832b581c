-- ===== src/Workflow/Shapes.antt =====
-- The validators of single records: `validate_shape`, `validate_source_shape` and
-- `_validate_compatible_ports` of src/contracts/workflow/models.py.
pub mod Fields
use myknowledgebase.Prelude.{
  string_eq, String, ◌≡◌, Bool, true, false, not, ◌&&◌, ◌||◌, Option, none, some, List, [], ◌∷◌,
  map, Eq, ◌==◌, is_some, any, contains, distinct, Result, ok, err, ◌>>=◌, ◌>>◌, require, refuse,
  if◌then◌else◌,
}
use myknowledgebase.Workflow.Kinds.{
  value_type_eq, multiplicity_eq, StepKind, start, process, control, is_required, is_join_route,
  is_no_join, BindingSourceKind, prior_output,
}
use myknowledgebase.Workflow.Model.{
  PortDefinition, StepDefinition, RouteDefinition, BindingDefinition, Fault, input_ports_repeat,
  output_ports_repeat, process_needs_capability, process_needs_phase, process_needs_proof,
  process_has_foreign_fields, process_needs_output, control_needs_key, control_needs_phase,
  control_has_foreign_fields, selected_output_needs_version, selected_output_candidates,
  selected_output_canonical, selected_output_fallback, selection_semantics_misplaced,
  terminal_not_required, terminal_needs_kind, terminal_has_ports, terminal_has_foreign_fields,
  start_not_required, start_has_ports, start_has_foreign_fields, join_has_foreign_fields,
  join_has_phase, join_route_needs_mode, join_mode_misplaced, prior_output_needs_source,
  prior_output_has_ref, binding_needs_ref, binding_has_source, ports_incompatible,
}

abbrev pub Check : Type 0
Check = Result Fault (Unit {0})

abbrev pub slot_names : List PortDefinition → List String
slot_names = map (λ p. p.slot_name)

abbrev pub nonempty {ℓ} : {A : Type ℓ} → List A → Bool
nonempty [] = false
nonempty (x ∷ xs) = true

-- `process_key`, `contract_version` or `required_proof_kind` is set.
has_capability_fields : StepDefinition → Bool
has_capability_fields s =
    is_some s.process_key || is_some s.contract_version || is_some s.required_proof_kind

-- `control_key`, `control_version` or `control_fallback_port` is set.
has_control_fields : StepDefinition → Bool
has_control_fields s =
    is_some s.control_key || is_some s.control_version || is_some s.control_fallback_port

process_shape : StepDefinition → Check
unfolding has_control_fields
process_shape s = do
  require (is_some s.process_key && is_some s.contract_version) process_needs_capability
  require (is_some s.phase_key) process_needs_phase
  require (is_some s.required_proof_kind) process_needs_proof
  refuse (has_control_fields s || is_some s.terminal_kind) process_has_foreign_fields
  require (nonempty s.output_ports) process_needs_output

-- `len(self.output_ports) != 1 or not self.output_ports[0].required`, negated.
abbrev one_required : List PortDefinition → Bool
one_required (p ∷ []) = p.required
one_required _ = false

abbrev fallback_known : Option String → List PortDefinition → Bool
fallback_known none ports = true
fallback_known (some port) ports = contains (slot_names ports) port

selection_shape : StepDefinition → Check
selection_shape s = do
  require (is_some s.control_version) selected_output_needs_version
  require (nonempty s.input_ports && not (any (λ p. p.required) s.input_ports))
      selected_output_candidates
  require (one_required s.output_ports) selected_output_canonical
  require (fallback_known s.control_fallback_port s.input_ports) selected_output_fallback

abbrev is_selected_output : Option String → Bool
is_selected_output none = false
is_selected_output (some key) = key == "selected_output"

control_shape : StepDefinition → Check
unfolding has_capability_fields selection_shape
control_shape s = do
  require (is_some s.control_key) control_needs_key
  require (is_some s.phase_key) control_needs_phase
  refuse (has_capability_fields s || is_some s.terminal_kind) control_has_foreign_fields
  if is_selected_output s.control_key
      then selection_shape s
      else refuse (is_some s.control_version || is_some s.control_fallback_port)
          selection_semantics_misplaced

terminal_shape : StepDefinition → Check
unfolding has_capability_fields has_control_fields
terminal_shape s = do
  require (is_required s.requiredness) terminal_not_required
  require (is_some s.terminal_kind) terminal_needs_kind
  refuse (nonempty s.input_ports || nonempty s.output_ports || is_some s.phase_key)
      terminal_has_ports
  refuse (has_capability_fields s || has_control_fields s) terminal_has_foreign_fields

start_shape : StepDefinition → Check
unfolding has_capability_fields has_control_fields
start_shape s = do
  require (is_required s.requiredness) start_not_required
  refuse (nonempty s.input_ports || nonempty s.output_ports || is_some s.phase_key) start_has_ports
  refuse (has_capability_fields s || has_control_fields s || is_some s.terminal_kind)
      start_has_foreign_fields

join_shape : StepDefinition → Check
unfolding has_capability_fields has_control_fields
join_shape s = do
  refuse (has_capability_fields s || has_control_fields s || is_some s.terminal_kind)
      join_has_foreign_fields
  refuse (is_some s.phase_key) join_has_phase

-- The branches of `validate_shape` on the kind of the step.
kind_shape : StepKind → StepDefinition → Check
unfolding process_shape control_shape terminal_shape start_shape join_shape
kind_shape process s = process_shape s
kind_shape control s = control_shape s
kind_shape StepKind.terminal s = terminal_shape s
kind_shape start s = start_shape s
kind_shape StepKind.join s = join_shape s

-- `WorkflowStepDefinition.validate_shape`
unfoldable pub step_shape : StepDefinition → Check
unfolding kind_shape
step_shape s = do
  require (distinct (slot_names s.input_ports)) input_ports_repeat
  require (distinct (slot_names s.output_ports)) output_ports_repeat
  kind_shape s.step_kind s

-- `WorkflowRouteDefinition.validate_shape`
unfoldable pub route_shape : RouteDefinition → Check
route_shape r = do
  refuse (is_join_route r.route_kind && is_no_join r.join_mode) join_route_needs_mode
  refuse (not (is_join_route r.route_kind) && not (is_no_join r.join_mode)) join_mode_misplaced

source_shape : BindingSourceKind → BindingDefinition → Check
source_shape prior_output b = do
  require (is_some b.source_step_key && is_some b.source_port_name) prior_output_needs_source
  refuse (is_some b.source_ref_key) prior_output_has_ref
source_shape _ b = do
  require (is_some b.source_ref_key) binding_needs_ref
  refuse (is_some b.source_step_key || is_some b.source_port_name) binding_has_source

-- `WorkflowBindingDefinition.validate_source_shape`
unfoldable pub binding_shape : BindingDefinition → Check
unfolding source_shape
binding_shape b = source_shape b.source_kind b

-- `_validate_compatible_ports`
unfoldable pub compatible_ports : PortDefinition → PortDefinition → Check
compatible_ports source target =
    require
      ((source.value_type == target.value_type)
        && (source.schema_ref == target.schema_ref)
        && (source.multiplicity == target.multiplicity))
      ports_incompatible
