-- ===== src/Workflow/Shapes/Fields.antt =====
-- Which fields of a step are set, by its kind.
use myknowledgebase.Prelude.{
  refuse-eq-ok, refuse, refl, if◌then◌else◌, ◌≡◌, Bool, true, false, ◌||◌, ◌&&◌, not, arith,
  is_some, ok, >>-eq-ok, require-eq-ok, require, string_eq, distinct,
}
use myknowledgebase.Workflow.Kinds.{
  StepKind, start, process, control, is_process, is_control, is_terminal, is_start, is_required,
}
use myknowledgebase.Workflow.Model.{StepDefinition, Fault}
use myknowledgebase.Workflow.Shapes.{
  control_shape, slot_names, nonempty, is_selected_output, kind_shape, selection_shape, step_shape,
}

-- The optional fields that are set are those that the kind of the step calls for.
pub record FieldsOfKind (k : StepKind) (s : StepDefinition) : Type 0 where
  pub capability :
      (is_some s.process_key ≡ is_process k)
      × (is_some s.contract_version ≡ is_process k)
      × (is_some s.required_proof_kind ≡ is_process k)
  pub controls : is_some s.control_key ≡ is_control k
  pub selection : is_some s.control_version ≡ is_selected_output s.control_key
  pub fallback : (is_some s.control_fallback_port && not (is_selected_output s.control_key)) ≡ false
  pub phased : is_some s.phase_key ≡ (is_process k || is_control k)
  pub ends : is_some s.terminal_kind ≡ is_terminal k
  pub always_required : (is_start k || is_terminal k) ≡ true → is_required s.requiredness ≡ true
  pub no_ports :
      (is_start k || is_terminal k) ≡ true
      → (nonempty s.input_ports || nonempty s.output_ports) ≡ false
  pub process_outputs : is_process k ≡ true → nonempty s.output_ports ≡ true

-- The selection checks of a control step leave the version set exactly on `selected_output`.
version_by_key :
    (b : Bool) (s : StepDefinition) (misplaced : Fault)
    → (if b
        then selection_shape s
        else refuse (is_some s.control_version || is_some s.control_fallback_port) misplaced)
      ≡ ok tt
    → is_some s.control_version ≡ b
unfolding selection_shape
version_by_key true s misplaced h =
    require-eq-ok _ _ (>>-eq-ok (require (is_some s.control_version) _) _ h).0
version_by_key false s misplaced h = ground arith

-- They leave a fallback port only on `selected_output`.
fallback_by_key :
    (b : Bool) (s : StepDefinition) (misplaced : Fault)
    → (if b
        then selection_shape s
        else refuse (is_some s.control_version || is_some s.control_fallback_port) misplaced)
      ≡ ok tt
    → (is_some s.control_fallback_port && not b) ≡ false
fallback_by_key true s misplaced h = ground arith
fallback_by_key false s misplaced h = ground arith

no_fields :
    {a b c d : Bool}
    → ((a || b || c) || d) ≡ false
    → (a ≡ false) × (b ≡ false) × (c ≡ false) × (d ≡ false)
no_fields {a = false} {b = false} {c = false} h = (refl, refl, refl, h)
no_fields {a = false} {b = false} {c = true} h = cc
no_fields {a = false} {b = true} h = cc
no_fields {a = true} h = cc

control_shape-FieldsOfKind : (s : StepDefinition) → control_shape s ≡ ok tt → FieldsOfKind control s
unfolding control_shape
control_shape-FieldsOfKind s h =
    let keyed = >>-eq-ok (require (is_some s.control_key) _) _ h in
    let in_phase = >>-eq-ok (require (is_some s.phase_key) _) _ keyed.1 in
    let own =
      >>-eq-ok
        (refuse
          ((is_some s.process_key || is_some s.contract_version || is_some s.required_proof_kind)
            || is_some s.terminal_kind)
          _)
        _ in_phase.1 in
    let key = require-eq-ok _ _ keyed.0 in
    let phase = require-eq-ok _ _ in_phase.0 in
    let foreign = refuse-eq-ok _ _ own.0 in
    let version = version_by_key (is_selected_output s.control_key) s _ own.1 in
    let bare = no_fields foreign in
    record {
      capability = (bare.0, bare.1, bare.2);
      controls = key;
      selection = version;
      fallback = fallback_by_key (is_selected_output s.control_key) s _ own.1;
      phased = phase;
      ends = bare.3;
      always_required = λ e. cc;
      no_ports = λ e. cc;
      process_outputs = λ e. cc;
    }

kind_shape-FieldsOfKind :
    (k : StepKind) (s : StepDefinition) → kind_shape k s ≡ ok tt → FieldsOfKind k s
unfolding kind_shape
kind_shape-FieldsOfKind process s h = ground arith
kind_shape-FieldsOfKind control s h = control_shape-FieldsOfKind s h
kind_shape-FieldsOfKind StepKind.terminal s h = ground arith
kind_shape-FieldsOfKind start s h = ground arith
kind_shape-FieldsOfKind StepKind.join s h = ground arith

-- A step that `step_shape` accepts has on each side ports of different names, and the optional
-- fields it sets are those of its kind: capability, contract version and proof kind exactly on a
-- process, a control key exactly on a control, a control version exactly with the key
-- `selected_output`, a control fallback port only with that key, a phase exactly on a process or a control, and a terminal kind exactly on a terminal;
-- a start and a terminal are required and have no ports, and a process has an output.
pub step_shape-FieldsOfKind :
    (s : StepDefinition)
    → step_shape s ≡ ok tt
    → (distinct (slot_names s.input_ports) ≡ true)
      × (distinct (slot_names s.output_ports) ≡ true)
      × FieldsOfKind s.step_kind s
unfolding step_shape
step_shape-FieldsOfKind s h =
    let inputs = >>-eq-ok (require (distinct (slot_names s.input_ports)) _) _ h in
    let outputs = >>-eq-ok (require (distinct (slot_names s.output_ports)) _) _ inputs.1 in
    (
      require-eq-ok _ _ inputs.0,
      require-eq-ok _ _ outputs.0,
      kind_shape-FieldsOfKind s.step_kind s outputs.1,
    )
