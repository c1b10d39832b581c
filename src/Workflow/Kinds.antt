-- ===== src/Workflow/Kinds.antt =====
-- The closed enumerations of src/contracts/workflow/models.py, and their equality tests.
use myknowledgebase.Prelude.{Eq, Bool, true, false, of_discrete}

pub data StepKind : Type 0 where
  start process control join terminal : StepKind

pub data Requiredness : Type 0 where
  required optional : Requiredness

pub data TerminalKind : Type 0 where
  success failure cancelled noop : TerminalKind

pub data RouteKind : Type 0 where
  normal branch fan_out join terminal : RouteKind

pub data OutcomeSelector : Type 0 where
  always succeeded failed cancelled skipped : OutcomeSelector

pub data JoinMode : Type 0 where
  none all_required all_terminal : JoinMode

pub data PhaseKey : Type 0 where
  resolving_source cleaning scattering preflight_admission awaiting_human_review : PhaseKey
  structurizing constructing vectorizing_indexing validating_publication fan_in : PhaseKey
  updating_metadata deactivating deleting purging rebuilding_index : PhaseKey

pub data ValueType : Type 0 where
  logical_ref digest proof : ValueType

pub data Multiplicity : Type 0 where
  one many : Multiplicity

pub data BindingSourceKind : Type 0 where
  execution_context intake_snapshot prior_output control_value registry_ref : BindingSourceKind

pub data ExecutionRole : Type 0 where
  single_root scatter_root scatter_child : ExecutionRole

abbrev pub is_process : StepKind → Bool
is_process StepKind.process = true
is_process _ = false

abbrev pub is_control : StepKind → Bool
is_control StepKind.control = true
is_control _ = false

abbrev pub is_start : StepKind → Bool
is_start StepKind.start = true
is_start _ = false

abbrev pub is_terminal : StepKind → Bool
is_terminal StepKind.terminal = true
is_terminal _ = false

abbrev pub is_required : Requiredness → Bool
is_required required = true
is_required optional = false

abbrev pub is_terminal_route : RouteKind → Bool
is_terminal_route RouteKind.terminal = true
is_terminal_route _ = false

abbrev pub is_join_route : RouteKind → Bool
is_join_route RouteKind.join = true
is_join_route _ = false

abbrev pub is_always : OutcomeSelector → Bool
is_always always = true
is_always _ = false

abbrev pub is_no_join : JoinMode → Bool
is_no_join JoinMode.none = true
is_no_join _ = false

unfoldable pub OutcomeSelector-discrete : Discrete OutcomeSelector
OutcomeSelector-discrete = hlevel

unfoldable pub ValueType-discrete : Discrete ValueType
ValueType-discrete = hlevel

unfoldable pub Multiplicity-discrete : Discrete Multiplicity
Multiplicity-discrete = hlevel

instance abbrev pub selector_eq : Eq OutcomeSelector
selector_eq = of_discrete OutcomeSelector-discrete

instance abbrev pub value_type_eq : Eq ValueType
value_type_eq = of_discrete ValueType-discrete

instance abbrev pub multiplicity_eq : Eq Multiplicity
multiplicity_eq = of_discrete Multiplicity-discrete
