-- ===== src/Workflow/Model.antt =====
-- The records of src/contracts/workflow/models.py, and the `ValueError`s that its validators raise.
-- A key is a text; its pattern and length are checked by the parser of the fields, before these
-- validators run.
use myknowledgebase.Prelude.{ℕ, String, Bool, Option, List}
use myknowledgebase.Workflow.Kinds.{
  StepKind, Requiredness, TerminalKind, RouteKind, OutcomeSelector, JoinMode, PhaseKey, ValueType,
  Multiplicity, BindingSourceKind, ExecutionRole,
}

pub record PortDefinition : Type 0 where
  pub slot_name : String
  pub value_type : ValueType
  pub schema_ref : String
  pub required : Bool
  pub multiplicity : Multiplicity

pub record StepDefinition : Type 0 where
  pub step_key : String
  pub step_kind : StepKind
  pub requiredness : Requiredness
  pub process_key : Option String
  pub contract_version : Option String
  pub phase_key : Option PhaseKey
  pub required_proof_kind : Option String
  pub control_key : Option String
  pub control_version : Option String
  pub control_fallback_port : Option String
  pub input_ports : List PortDefinition
  pub output_ports : List PortDefinition
  pub terminal_kind : Option TerminalKind

pub record RouteDefinition : Type 0 where
  pub route_key : String
  pub from_step_key : String
  pub to_step_key : String
  pub route_kind : RouteKind
  pub outcome_selector : OutcomeSelector
  pub priority : ℕ
  pub guard_key : Option String
  pub join_mode : JoinMode

pub data PredicateType : Type 0 where
  registered_admission_result registered_request_intent registered_metadata_disposition :
      PredicateType
  registered_markdown_selection registered_admission_markdown_selection : PredicateType
  representation_main_text_presence registered_acquisition_mode : PredicateType
  representation_media_family registered_clean_strategy : PredicateType

-- `operator` and `failure_disposition` are literals with one value each.
pub record GuardDefinition : Type 0 where
  pub guard_key : String
  pub predicate_type : PredicateType
  pub expected_value : String

pub record BindingDefinition : Type 0 where
  pub target_step_key : String
  pub target_slot_name : String
  pub source_kind : BindingSourceKind
  pub source_ref_key : Option String
  pub source_step_key : Option String
  pub source_port_name : Option String

-- `schema_version`, `domain_key` and `purpose_key` are literals; no validator reads them, the role,
-- the revision or the two texts for display.
pub record WorkflowDefinition : Type 0 where
  pub workflow_key : String
  pub revision_number : ℕ
  pub purpose_key : String
  pub execution_role : ExecutionRole
  pub context_slots : List PortDefinition
  pub required_process_keys : List String
  pub steps : List StepDefinition
  pub routes : List RouteDefinition
  pub bindings : List BindingDefinition
  pub guards : List GuardDefinition

pub data Fault : Type 0 where
  input_ports_repeat output_ports_repeat : Fault
  process_needs_capability process_needs_phase process_needs_proof : Fault
  process_has_foreign_fields process_needs_output : Fault
  control_needs_key control_needs_phase control_has_foreign_fields : Fault
  selected_output_needs_version selected_output_candidates selected_output_canonical : Fault
  selected_output_fallback selection_semantics_misplaced : Fault
  terminal_not_required terminal_needs_kind terminal_has_ports terminal_has_foreign_fields : Fault
  start_not_required start_has_ports start_has_foreign_fields : Fault
  join_has_foreign_fields join_has_phase : Fault
  join_route_needs_mode join_mode_misplaced : Fault
  guard_value_unregistered : Fault
  prior_output_needs_source prior_output_has_ref : Fault
  binding_needs_ref binding_has_source : Fault
  step_keys_repeat not_one_start no_terminal : Fault
  context_slots_repeat guard_keys_repeat : Fault
  process_keys_repeat process_key_absent process_keys_differ : Fault
  route_keys_repeat route_unknown_step route_self_edge route_from_terminal : Fault
  route_priority_ambiguous route_terminal_mismatch guarded_always guard_unknown guard_unreferenced :
      Fault
  start_without_route graph_cyclic step_unreachable step_without_terminal outcome_uncovered : Fault
  binding_target_kind binding_target_port binding_repeated binding_source_port
        binding_not_upstream :
      Fault
  context_slot_unknown ports_incompatible required_port_unbound : Fault
  -- The fuel of a graph walk ran out; no run of the code corresponds to it.
  out_of_fuel : Fault
