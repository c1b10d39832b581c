-- ===== src/Scatter/Joined.antt =====
-- What a run of the fan-in of src/runtime/workflow/runtime_scatter.py has read when it ends the root.
use myknowledgebase.Prelude.{
  beq→eq, ℕ, ◌≡◌, refl, sym, subst, true, false, not, Option, none, some, List, [], ◌∷◌, ◌==◌,
  nat_eq, string_eq, option_eq, length, is_some, ◌&&◌, any, all, Bool-cases, inl, inr,
}
use myknowledgebase.Process.Row.{is_terminal_execution}
use myknowledgebase.Scatter.Members.{Member, expected_members}
use myknowledgebase.Scatter.Children.{
  Child, Fan, Evidence, Verdict, by_item, is_expected, bind_children, role_is_root, fails, succeeds,
}
use myknowledgebase.Scatter.Converge.{
  root_terminal_proof, failures, settle, collect, fan_in, of_task, maybe_converge, of_empty,
  is_waiting,
}

-- A verdict that ends the root: it succeeds, or it fails for one of its children.
abbrev pub Ends : Verdict → Type 0
Ends (succeeds e) = Unit
Ends (fails code source) = Unit
Ends _ = ⊥

-- The decision on accepted members that are not none: what was read and which children are bound.
pub record Joined (f : Fan) (v : Verdict) : Type 0 where
  pub snapshot : ℕ
  pub change_set : ℕ
  pub expected : List Member
  pub bound : List Child
  pub task : f.task ≡ some (some snapshot, some change_set)
  pub accepted : expected_members f.has_change_set f.memberships f.facts ≡ some expected
  pub covered : all (is_expected expected) f.children ≡ true
  pub bound_is : bind_children snapshot change_set f.children (by_item expected) ≡ some bound
  pub full : length bound ≡ length expected
  pub ended : any (λ c. not (is_terminal_execution c.status)) bound ≡ false
  pub settled : settle f expected bound (failures bound) ≡ v

record Collected (f : Fan) (expected : List Member) (o : Option (List Child)) (v : Verdict)
    : Type 0 where
  bound : List Child
  bound_is : o ≡ some bound
  full : length bound ≡ length expected
  ended : any (λ c. not (is_terminal_execution c.status)) bound ≡ false
  settled : settle f expected bound (failures bound) ≡ v

back_to_end : {v w : Verdict} → v ≡ w → Ends w → Ends v
back_to_end p e = subst Ends (sym p) e

collect-Collected :
    (f : Fan) (expected : List Member) (o : Option (List Child)) {v : Verdict}
    → collect f expected o ≡ v
    → Ends v
    → Collected f expected o v
collect-Collected f expected none h e = elim (back_to_end h e) [ ]
collect-Collected f expected (some bound) {v} h e =
    elim (Bool-cases (length bound == length expected)) [
      | inr fewer ↦ let none_ends : ⊥ = back_to_end (rw fewer at h) e in elim none_ends [ ]
      | inl full ↦ elim (Bool-cases (any (λ c. not (is_terminal_execution c.status)) bound)) [
        | inl open_child ↦
            let none_ends : ⊥ = back_to_end (rw (full, open_child) at h) e in elim none_ends [ ]
        | inr ended ↦ record {
          bound = bound;
          bound_is = refl;
          full = beq→eq _ _ full;
          ended = ended;
          settled = rw (full, ended) at h;
        }
      ]
    ]

of_accepted-Joined :
    (f : Fan) (snapshot change_set : ℕ) (o : Option (List Member)) {v : Verdict}
    → f.task ≡ some (some snapshot, some change_set)
    → expected_members f.has_change_set f.memberships f.facts ≡ o
    → fan_in f snapshot change_set o ≡ v
    → Ends v
    → Joined f v
of_accepted-Joined f snapshot change_set none t a h e = elim (back_to_end h e) [ ]
of_accepted-Joined f snapshot change_set (some []) t a h e =
    let none_ends : ⊥ =
      empty_ends (root_terminal_proof f.execution_uuid f.processes none) (subst Ends (sym h) e) in
    elim none_ends [ ]
  where
    empty_ends : (o : Option Evidence) → Ends (of_empty o) → ⊥
    empty_ends none d = d
    empty_ends (some p) d = d
of_accepted-Joined f snapshot change_set (some (m ∷ ms)) t a h e =
    elim (Bool-cases (is_some f.change_set_digest)) [
      | inr no_digest ↦ let none_ends : ⊥ = back_to_end (rw no_digest at h) e in elim none_ends [ ]
      | inl digest ↦ elim (Bool-cases (all (is_expected (m ∷ ms)) f.children)) [
        | inr stray ↦
            let none_ends : ⊥ = back_to_end (rw (digest, stray) at h) e in elim none_ends [ ]
        | inl covered ↦
            let c =
              collect-Collected f (m ∷ ms)
                (bind_children snapshot change_set f.children (by_item (m ∷ ms)))
                (rw (digest, covered) at h) e in
            record {
              snapshot = snapshot;
              change_set = change_set;
              expected = m ∷ ms;
              bound = c.bound;
              task = t;
              accepted = a;
              covered = covered;
              bound_is = c.bound_is;
              full = c.full;
              ended = c.ended;
              settled = c.settled;
            }
      ]
    ]

of_task-Joined :
    (f : Fan) (o : Option (Option ℕ × Option ℕ)) {v : Verdict}
    → f.task ≡ o
    → of_task f o ≡ v
    → Ends v
    → Joined f v
of_task-Joined f none t h e = elim (back_to_end h e) [ ]
of_task-Joined f (some (none, b)) t h e = elim (back_to_end h e) [ ]
of_task-Joined f (some (some s, none)) t h e = elim (back_to_end h e) [ ]
of_task-Joined f (some (some s, some c)) t h e =
    of_accepted-Joined f s c (expected_members f.has_change_set f.memberships f.facts) t refl h e

pub maybe_converge-Joined : (f : Fan) {v : Verdict} → maybe_converge f ≡ v → Ends v → Joined f v
unfolding maybe_converge
maybe_converge-Joined f h e =
    elim (Bool-cases (
      (role_is_root f.execution_role && is_waiting f.status)
      && (f.waiting_reason == some "scatter_children"))) [
        | inl asked ↦ of_task-Joined f f.task refl (rw asked at h) e
        | inr other ↦ let none_ends : ⊥ = back_to_end (rw other at h) e in elim none_ends [ ]
      ]
