-- ===== src/Scatter/Sound.antt =====
-- What the fan-in of src/runtime/workflow/runtime_scatter.py promises.
use mathlib.Core.List.Memᴰ
use myknowledgebase.Prelude.{
  ℕ, suc, ◌≡◌, refl, sym, ap, ◌∙◌, subst, Bool, true, false, not, Option, none, some, List, [], ◌∷◌,
  Memᴰ, Result, ok, err, String, ◌==◌, nat_eq, string_eq, option_eq, length, arith, any, keep,
  Bool-cases, inl, inr, all-mem, any-mem, mem-keep,
}
use myknowledgebase.Process.Row.{ExecutionStatus, is_terminal_execution}
use myknowledgebase.Scatter.Members.{Member, expected_members}
use myknowledgebase.Scatter.Children.{
  Child, Fan, Evidence, Broken, Verdict, by_item, children_of, is_expected, succeeds,
}
use myknowledgebase.Scatter.Converge.{
  sort_children, sort_members, prove_children, has_failed, was_cancelled, unsuccessful, failures,
  settle, maybe_converge, verdict_of,
}
use myknowledgebase.Scatter.Paired.{
  OnlyChild, Published, Pairs, next, done, by_item_new, bind_children-Pairs,
}
use myknowledgebase.Scatter.Sorted.{
  Bound, sort-Pairs, mem-sort_members, find-Pairs, prove_children-Proved,
}
use myknowledgebase.Scatter.Joined.{Ends, Joined, maybe_converge-Joined}

length-Pairs :
    {R : Child → Member → Type 0} {cs : List Child} {ms : List Member}
    → Pairs R cs ms
    → length cs ≡ length ms
length-Pairs done = refl
length-Pairs (next r ps) = ap (λ n. suc n) (length-Pairs ps)

-- A child whose Execution has ended.
pub record Ended (f : Fan) (snapshot change_set : ℕ) (c : Child) (m : Member) : Type 0 where
  pub only : OnlyChild f snapshot change_set c m
  pub ended : is_terminal_execution c.status ≡ true

all_terminal :
    (f : Fan) (snapshot change_set : ℕ) {cs : List Child} {ms : List Member}
    → Pairs (OnlyChild f snapshot change_set) cs ms
    → any (λ c. not (is_terminal_execution c.status)) cs ≡ false
    → Pairs (Ended f snapshot change_set) cs ms
all_terminal f snapshot change_set done h = done
all_terminal f snapshot change_set (next {c} {m} {cs} {ms} r ps) h =
    elim (Bool-cases (is_terminal_execution c.status)) [
      | inl yes_ended ↦
          next (record { only = r; ended = yes_ended })
            (all_terminal f snapshot change_set ps (rw yes_ended at h))
      | inr open_child ↦ cc (rw open_child at h)
    ]

pub paired :
    (f : Fan) {v : Verdict} (j : Joined f v)
    → Pairs (Ended f j.snapshot j.change_set) j.bound j.expected
paired f j =
    let ps = bind_children-Pairs f j.snapshot j.change_set (by_item j.expected) j.bound_is in
    let same = by_item_new j.expected (sym (length-Pairs ps) ∙ j.full) in
    all_terminal f j.snapshot j.change_set
      (subst (λ x. Pairs (OnlyChild f j.snapshot j.change_set) j.bound x) same ps) j.ended

-- When the fan-in ends a root with members, by its success or for a child that did not succeed, every
-- child below the root has ended. A failure of the root for its integrity is apart.
pub maybe_converge-collect_all :
    (f : Fan) {v : Verdict} {c : Child}
    → maybe_converge f ≡ v
    → Ends v
    → Memᴰ c f.children
    → is_terminal_execution c.status ≡ true
maybe_converge-collect_all f {v} {c} h e child =
    let j = maybe_converge-Joined f h e in
    let target =
      any-mem (λ m. c.target_uuid == some m.intake_item_uuid) j.expected
        (all-mem (is_expected j.expected) f.children j.covered child) in
    let p = find-Pairs (paired f j) target.1 in
    let kept : Memᴰ c (children_of target.0.intake_item_uuid f.children) =
      mem-keep (λ d. d.target_uuid == some target.0.intake_item_uuid) f.children child target.2 in
    elim (Memᴰ.cases_cons (subst (λ x. Memᴰ c x) p.1.only.only kept)) [
      | inl same ↦ subst (λ x. is_terminal_execution x.status ≡ true) (sym same) p.1.ended
      | inr other ↦ elim other [ ]
    ]

-- A child that has succeeded.
record Succeeded (f : Fan) (snapshot change_set : ℕ) (c : Child) (m : Member) : Type 0 where
  pub only : OnlyChild f snapshot change_set c m
  status_is : c.status ≡ ExecutionStatus.succeeded

unsuccessful-none :
    (failed cancelled : List Child)
    → unsuccessful failed cancelled ≡ none
    → (failed ≡ []) × (cancelled ≡ [])
unsuccessful-none [] [] h = (refl, refl)
unsuccessful-none [] (c ∷ cs) h = cc
unsuccessful-none (c ∷ cs) cancelled h = cc

ended_well :
    (s : ExecutionStatus)
    → is_terminal_execution s ≡ true
    → has_failed s ≡ false
    → was_cancelled s ≡ false
    → s ≡ ExecutionStatus.succeeded
ended_well s t f c = ground (arith, s)

keep-none :
    (test : Child → Bool) (c : Child) (cs : List Child)
    → keep test (c ∷ cs) ≡ []
    → (test c ≡ false) × (keep test cs ≡ [])
keep-none test c cs h = elim (Bool-cases (test c)) [
  | inl taken ↦ cc (rw taken at h)
  | inr left ↦ (left, rw left at h)
]

none_failed :
    (f : Fan) (snapshot change_set : ℕ) {cs : List Child} {ms : List Member}
    → Pairs (Ended f snapshot change_set) cs ms
    → keep (λ c. has_failed c.status) cs ≡ []
    → keep (λ c. was_cancelled c.status) cs ≡ []
    → Pairs (Bound (Succeeded f snapshot change_set)) cs ms
none_failed f snapshot change_set done no_failed no_cancelled = done
none_failed f snapshot change_set (next {c} {m} {cs} {ms} r ps) no_failed no_cancelled =
    let a = keep-none (λ d. has_failed d.status) c cs no_failed in
    let b = keep-none (λ d. was_cancelled d.status) c cs no_cancelled in
    next
      (record {
        pair = record { only = r.only; status_is = ended_well c.status r.ended a.0 b.0 };
        target = r.only.target;
      })
      (none_failed f snapshot change_set ps a.1 b.1)

settle-succeeds :
    (f : Fan) (expected : List Member) (bound : List Child) (o : Option (String × Child))
    {e : Evidence}
    → settle f expected bound o ≡ succeeds e
    → (o ≡ none)
      × ((es : List Evidence) × (prove_children f (sort_children bound) (sort_members expected)
            ≡ ok es))
settle-succeeds f expected bound (some (code, child)) h = cc
settle-succeeds f expected bound none {e} h =
    (refl, of_proofs (prove_children f (sort_children bound) (sort_members expected)) refl h)
  where
    of_proofs :
        (r : Result Broken (List Evidence))
        → prove_children f (sort_children bound) (sort_members expected) ≡ r
        → verdict_of r ≡ succeeds e
        → (es : List Evidence) × (prove_children f (sort_children bound) (sort_members expected)
            ≡ ok es)
    of_proofs (err b) p g = cc
    of_proofs (ok es) p g = (es, p)

-- The child of a member when the root has succeeded.
pub record Finished (f : Fan) (snapshot change_set : ℕ) (m : Member) : Type 0 where
  pub child : Child
  pub only : OnlyChild f snapshot change_set child m
  pub status_is : child.status ≡ ExecutionStatus.succeeded
  pub published : Published f child m

finished :
    (f : Fan) {e : Evidence} {m : Member} (j : Joined f (succeeds e))
    → Memᴰ m j.expected
    → Finished f j.snapshot j.change_set m
finished f {e} {m} j member =
    let settled = settle-succeeds f j.expected j.bound (failures j.bound) j.settled in
    let well =
      unsuccessful-none (keep (λ c. has_failed c.status) j.bound)
        (keep (λ c. was_cancelled c.status) j.bound) settled.0 in
    let bound = sort-Pairs (none_failed f j.snapshot j.change_set (paired f j) well.0 well.1) in
    let proved =
      prove_children-Proved f (sort_children j.bound) (sort_members j.expected) bound settled.1.1 in
    let p = find-Pairs proved (mem-sort_members j.expected member) in
    record {
      child = p.0;
      only = p.1.pair.pair.only;
      status_is = p.1.pair.pair.status_is;
      published = p.1.published;
    }

-- If the fan-in lets the root succeed for members that were accepted, then each member has exactly one
-- child, which carries the accepted snapshot, change set, ordinal and revision, has succeeded, and has
-- one publication proof whose Process has succeeded with the references of the child.
pub maybe_converge-Finished :
    (f : Fan) {snapshot change_set : ℕ} {expected : List Member} {m : Member} {e : Evidence}
    → f.task ≡ some (some snapshot, some change_set)
    → expected_members f.has_change_set f.memberships f.facts ≡ some expected
    → Memᴰ m expected
    → maybe_converge f ≡ succeeds e
    → Finished f snapshot change_set m
maybe_converge-Finished f {snapshot} {change_set} {expected} {m} task accepted member h =
    let j = maybe_converge-Joined f h _ in
    let same : j.expected ≡ expected = cc (j.accepted, accepted) in
    let same_snapshot : j.snapshot ≡ snapshot = cc (j.task, task) in
    let same_change : j.change_set ≡ change_set = cc (j.task, task) in
    let d = finished f j (subst (λ x. Memᴰ m x) (sym same) member) in
    subst (λ x. Finished f x change_set m) same_snapshot
      (subst (λ x. Finished f j.snapshot x m) same_change d)
