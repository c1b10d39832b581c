-- ===== src/Workflow/Definition/Bindings.antt =====
-- What `_validate_bindings` has established of the bindings of an accepted workflow.
use mathlib.Core.List.Memᴰ
use myknowledgebase.Prelude.{
  String, ◌≡◌, ◌≢◌, refl, sym, ◌∙◌, ap, subst, true, false, ◌||◌, not, Option, some, none, List, [],
  ◌∷◌, Memᴰ, map, arith, string_eq, pair_eq, all, all-mem, mem-map, mem_of_map, contains,
  contains-mem, distinct, add, lookup, ok, require, refuse, of_option, fold_ok, fold_ok-mem,
  fold_ok-distinct, contains-fold_ok, >>=-eq-ok, >>-eq-ok, of_option-eq-ok, require-eq-ok,
  refuse-eq-ok,
}
use myknowledgebase.Graph.{Adjacency, can_reach}
use myknowledgebase.Graph.Search.{can_reach_decides}
use myknowledgebase.Workflow.Kinds.{prior_output, is_process, is_control}
use myknowledgebase.Workflow.Model.{
  PortDefinition, StepDefinition, BindingDefinition, WorkflowDefinition, Fault,
}
use myknowledgebase.Workflow.Shapes.{compatible_ports}
use myknowledgebase.Workflow.Definition.{
  steps_by_key, ports_of, input_ports, output_port, upstream, binding_source, target_key,
  binding_step, validate_bindings, validate_definition,
}
use myknowledgebase.Workflow.Definition.Spec.{RoutePath}
use myknowledgebase.Workflow.Definition.Built.{validate_routes-Built, Trail-RoutePath}
use myknowledgebase.Workflow.Definition.Loaded.{validate_definition-Loaded}

-- The checks that a binding has passed, and what the loop does with it.
record BindingTaken (d : WorkflowDefinition) (adj : Adjacency String)
    (bound : List (String × String)) (b : BindingDefinition) (bound' : List (String × String))
    : Type 0 where
  target_step : StepDefinition
  target_port : PortDefinition
  target_found : lookup (steps_by_key d.steps) b.target_step_key ≡ some target_step
  takes_input : (is_process target_step.step_kind || is_control target_step.step_kind) ≡ true
  port_found : lookup (input_ports d.steps) (target_key b) ≡ some target_port
  fresh : contains bound (target_key b) ≡ false
  source_checked : binding_source d adj b.source_kind b target_port ≡ ok tt
  grows : bound' ≡ add (target_key b) bound

binding_step-BindingTaken :
    (d : WorkflowDefinition) (adj : Adjacency String) (bound : List (String × String))
    (b : BindingDefinition) {bound' : List (String × String)}
    → binding_step d adj bound b ≡ ok bound'
    → BindingTaken d adj bound b bound'
unfolding binding_step
binding_step-BindingTaken d adj bound b h =
    let a =
      >>=-eq-ok
        (of_option (lookup (steps_by_key d.steps) b.target_step_key) Fault.binding_target_kind) _
        h in
    let c =
      >>-eq-ok
        (require (is_process a.0.step_kind || is_control a.0.step_kind) Fault.binding_target_kind) _
        a.2 in
    let f =
      >>=-eq-ok (of_option (lookup (input_ports d.steps) (target_key b)) Fault.binding_target_port)
        _ c.1 in
    let g = >>-eq-ok (refuse (contains bound (target_key b)) Fault.binding_repeated) _ f.2 in
    let k =
      >>-eq-ok (binding_source d adj b.source_kind b f.0) (ok (add (target_key b) bound)) g.1 in
    record {
      target_step = a.0;
      target_port = f.0;
      target_found = of_option-eq-ok _ Fault.binding_target_kind a.1;
      takes_input = require-eq-ok _ Fault.binding_target_kind c.0;
      port_found = of_option-eq-ok _ Fault.binding_target_port f.1;
      fresh = refuse-eq-ok _ Fault.binding_repeated g.0;
      source_checked = k.0;
      grows = cc (k.1);
    }

validate_bindings_loop :
    (d : WorkflowDefinition) (adj : Adjacency String)
    → validate_bindings d adj ≡ ok tt
    → (bound : List (String × String)) × (fold_ok (binding_step d adj) [] d.bindings ≡ ok bound)
      × (all (λ p. not p.1.required || contains bound p.0) (input_ports d.steps) ≡ true)
unfolding validate_bindings
validate_bindings_loop d adj h =
    let a = >>=-eq-ok (fold_ok (binding_step d adj) [] d.bindings) _ h in
    (a.0, a.1, require-eq-ok _ Fault.required_port_unbound a.2)

mem-input_ports :
    (steps : List StepDefinition) (s : StepDefinition) (p : PortDefinition)
    → Memᴰ s steps
    → Memᴰ p s.input_ports
    → Memᴰ ((s.step_key, p.slot_name), p) (input_ports steps)
mem-input_ports [] s p m n = elim m [ ]
mem-input_ports (x ∷ steps) s p (Memᴰ.head e) n = Memᴰ.append_left (input_ports steps) (
    subst
      (λ (y : StepDefinition).
        Memᴰ ((s.step_key, p.slot_name), p) (ports_of y.step_key y.input_ports))
      e (mem-map (λ q. ((s.step_key, q.slot_name), q)) s.input_ports n))
mem-input_ports (x ∷ steps) s p (Memᴰ.tail m) n =
    Memᴰ.append_right (ports_of x.step_key x.input_ports) (mem-input_ports steps s p m n)

-- In a workflow that validation accepts no two bindings fill one input port, and every required
-- input port of a step is filled by a binding.
pub validate_definition-bound_once :
    (d : WorkflowDefinition)
    → validate_definition d ≡ ok tt
    → (distinct (map target_key d.bindings) ≡ true)
      × ((s : StepDefinition) (p : PortDefinition)
          → Memᴰ s d.steps
          → Memᴰ p s.input_ports
          → p.required ≡ true
          → (b : BindingDefinition) × Memᴰ b d.bindings
            × (b.target_step_key ≡ s.step_key)
            × (b.target_slot_name ≡ p.slot_name))
validate_definition-bound_once d h =
    let l = validate_definition-Loaded d h in
    let (bound, loop, filled) = validate_bindings_loop d l.adjacency l.bindings in
    let taken =
      λ (st : List (String × String)) (b : BindingDefinition) (st' : List (String × String))
          (g : binding_step d l.adjacency st b ≡ ok st').
        binding_step-BindingTaken d l.adjacency st b g in
    (
      (fold_ok-distinct target_key (binding_step d l.adjacency) (λ st. st)
          (λ st b st' g. ((taken st b st' g).fresh, (taken st b st' g).grows)) d.bindings []
          loop).1,
      λ s p m n r.
          let key : String × String = (s.step_key, p.slot_name) in
          let held : contains bound key ≡ true = ground (
            arith,
            all-mem (λ q. not q.1.required || contains bound q.0) (input_ports d.steps) filled
                (mem-input_ports d.steps s p m n),
          ) in
          let all_keys =
            contains-fold_ok target_key (binding_step d l.adjacency) (λ st. st)
              (λ st b st' g. (taken st b st' g).grows) d.bindings [] loop key in
          let z =
            mem_of_map target_key d.bindings
              (contains-mem (map target_key d.bindings) key (sym all_keys ∙ held)) in
          (z.0, z.1, ap (λ (q : String × String). q.0) z.2, ap (λ (q : String × String). q.1) z.2),
    )

upstream-eq-ok :
    (adj : Adjacency String) (source : Option String) (target : String)
    → upstream adj source target ≡ ok tt
    → (s : String) × (source ≡ some s) × (can_reach adj s target ≡ some true)
upstream-eq-ok adj none target h = cc
upstream-eq-ok adj (some s) target h =
    let a = >>=-eq-ok (of_option (can_reach adj s target) Fault.out_of_fuel) _ h in
    (
      s,
      refl,
      of_option-eq-ok _ Fault.out_of_fuel a.1
          ∙ ap some (require-eq-ok a.0 Fault.binding_not_upstream a.2),
    )

binding_source_prior :
    (d : WorkflowDefinition) (adj : Adjacency String) (b : BindingDefinition)
    (target : PortDefinition)
    → binding_source d adj prior_output b target ≡ ok tt
    → (source : PortDefinition) × (output_port d.steps b.source_step_key b.source_port_name
        ≡ some source)
      × (upstream adj b.source_step_key b.target_step_key ≡ ok tt)
      × (compatible_ports source target ≡ ok tt)
unfolding binding_source
binding_source_prior d adj b target h =
    let a =
      >>=-eq-ok
        (of_option (output_port d.steps b.source_step_key b.source_port_name)
          Fault.binding_source_port)
        _ h in
    let c =
      >>-eq-ok (upstream adj b.source_step_key b.target_step_key) (compatible_ports a.0 target)
        a.2 in
    (a.0, of_option-eq-ok _ Fault.binding_source_port a.1, c.0, c.1)

-- In a workflow that validation accepts, a binding to a prior output names an output port of another
-- step, from which a path of routes leads to the step that it feeds, and the two ports agree.
pub validate_definition-upstream :
    (d : WorkflowDefinition) (b : BindingDefinition)
    → validate_definition d ≡ ok tt
    → Memᴰ b d.bindings
    → b.source_kind ≡ prior_output
    → (s : String) × (source : PortDefinition) × (target : PortDefinition) × (b.source_step_key
        ≡ some s)
      × (s ≢ b.target_step_key)
      × RoutePath d.routes s b.target_step_key
      × (output_port d.steps b.source_step_key b.source_port_name ≡ some source)
      × (lookup (input_ports d.steps) (target_key b) ≡ some target)
      × (compatible_ports source target ≡ ok tt)
validate_definition-upstream d b h m k =
    let l = validate_definition-Loaded d h in
    let (bound, loop, filled) = validate_bindings_loop d l.adjacency l.bindings in
    let (before, after, g) = fold_ok-mem (binding_step d l.adjacency) d.bindings [] loop m in
    let taken = binding_step-BindingTaken d l.adjacency before b g in
    let (source, found, up, fits) = binding_source_prior d l.adjacency b taken.target_port (
      subst (λ w. binding_source d l.adjacency w b taken.target_port ≡ ok tt) k
        taken.source_checked) in
    let (s, e, r) = upstream-eq-ok l.adjacency b.source_step_key b.target_step_key up in
    let (ne, p) = (can_reach_decides l.adjacency s b.target_step_key).1.0 r in
    (
      s,
      source,
      taken.target_port,
      e,
      ne,
      Trail-RoutePath (validate_routes-Built d l.start_key l.routes) p,
      found,
      taken.port_found,
      fits,
    )
