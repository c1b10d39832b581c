-- ===== src/Scatter/Failing.antt =====
-- For which child the fan-in of src/runtime/workflow/runtime_scatter.py fails the root.
use myknowledgebase.Prelude.{
  ◌∙◌, ap, arith, ℕ, ◌≡◌, refl, sym, subst, true, Option, none, some, List, [], ◌∷◌, Memᴰ, Result,
  ok, err, String, ◌==◌, nat_eq, option_eq, keep, keep-mem,
}
use myknowledgebase.Process.Row.{ExecutionStatus}
use myknowledgebase.Scatter.Members.{Member}
use myknowledgebase.Scatter.Children.{Child, Fan, Evidence, Broken, fails}
use myknowledgebase.Scatter.Converge.{
  last_terminal, sort_children, sort_members, prove_children, has_failed, was_cancelled,
  unsuccessful, failures, settle, maybe_converge, verdict_of,
}
use myknowledgebase.Scatter.Paired.{Pairs, next, done}
use myknowledgebase.Scatter.Joined.{maybe_converge-Joined}
use myknowledgebase.Scatter.Sound.{Ended, paired}

-- Why a child makes the root fail.
pub data Blames : ExecutionStatus → String → Type 0 where
  for_failed : Blames ExecutionStatus.failed "scatter-required-child-failed"
  for_cancelled : Blames ExecutionStatus.cancelled "scatter-required-child-cancelled"

-- A child that the root fails for, with its last terminal Process as the source.
pub record Blamed (f : Fan) (code : String) (source : Option Evidence) : Type 0 where
  pub child : Child
  pub is_child : Memᴰ child f.children
  pub why : Blames child.status code
  pub source_is : source ≡ last_terminal f.processes child.execution_uuid

record Chosen (bound : List Child) (code : String) (child : Child) : Type 0 where
  is_bound : Memᴰ child bound
  why : Blames child.status code

failed_is : {s : ExecutionStatus} → has_failed s ≡ true → s ≡ ExecutionStatus.failed
failed_is {s} h = ground (arith, s)

cancelled_is : {s : ExecutionStatus} → was_cancelled s ≡ true → s ≡ ExecutionStatus.cancelled
cancelled_is {s} h = ground (arith, s)

unsuccessful-Chosen :
    (bound failed cancelled : List Child) {code : String} {child : Child}
    → keep (λ c. has_failed c.status) bound ≡ failed
    → keep (λ c. was_cancelled c.status) bound ≡ cancelled
    → unsuccessful failed cancelled ≡ some (code, child)
    → Chosen bound code child
unsuccessful-Chosen bound [] [] p q h = cc
unsuccessful-Chosen bound [] (c ∷ cs) {code} {child} p q h =
    let k =
      keep-mem (λ d. was_cancelled d.status) bound
        (subst (λ x. Memᴰ c x) (sym q) (Memᴰ.head refl)) in
    let same : c ≡ child = cc in
    let code_is : "scatter-required-child-cancelled" ≡ code = cc in
    record {
      is_bound = subst (λ x. Memᴰ x bound) same k.0;
      why =
          subst (λ x. Blames child.status x) code_is
            (subst (λ x. Blames x "scatter-required-child-cancelled")
              (sym (cancelled_is (ap (λ x. was_cancelled x.status) (sym same) ∙ k.1)))
              for_cancelled);
    }
unsuccessful-Chosen bound (c ∷ cs) cancelled {code} {child} p q h =
    let k =
      keep-mem (λ d. has_failed d.status) bound (subst (λ x. Memᴰ c x) (sym p) (Memᴰ.head refl)) in
    let same : c ≡ child = cc in
    let code_is : "scatter-required-child-failed" ≡ code = cc in
    record {
      is_bound = subst (λ x. Memᴰ x bound) same k.0;
      why =
          subst (λ x. Blames child.status x) code_is
            (subst (λ x. Blames x "scatter-required-child-failed")
              (sym (failed_is (ap (λ x. has_failed x.status) (sym same) ∙ k.1))) for_failed);
    }

settle-fails :
    (f : Fan) (expected : List Member) (bound : List Child) (o : Option (String × Child))
    {code : String} {source : Option Evidence}
    → settle f expected bound o ≡ fails code source
    → (child : Child) × (o ≡ some (code, child))
      × (source ≡ last_terminal f.processes child.execution_uuid)
settle-fails f expected bound (some (a, child)) h = (child, (cc), (cc))
settle-fails f expected bound none {code} {source} h =
    of_proofs (prove_children f (sort_children bound) (sort_members expected)) h
  where
    of_proofs :
        (r : Result Broken (List Evidence))
        → verdict_of r ≡ fails code source
        → (child : Child) × (◌≡◌ {A = Option (String × Child)} none (some (code, child)))
          × (source ≡ last_terminal f.processes child.execution_uuid)
    of_proofs (err b) g = cc
    of_proofs (ok []) g = cc
    of_proofs (ok (e ∷ es)) g = cc

pairs-children :
    (f : Fan) (snapshot change_set : ℕ) {cs : List Child} {ms : List Member} {c : Child}
    → Pairs (Ended f snapshot change_set) cs ms
    → Memᴰ c cs
    → Memᴰ c f.children
pairs-children f snapshot change_set done h = elim h [ ]
pairs-children f snapshot change_set {cs} {ms} {c} (next {c = d} {m} r ps) (Memᴰ.head p) =
    (keep-mem (λ x. x.target_uuid == some m.intake_item_uuid) f.children
      (subst (λ x. Memᴰ c x) (sym r.only.only) (Memᴰ.head p))).0
pairs-children f snapshot change_set (next r ps) (Memᴰ.tail q) =
    pairs-children f snapshot change_set ps q

-- When the fan-in fails the root for a child, with a code and a source, and not for its integrity, then
-- a child below the root has failed or was cancelled as the code says, and the source is the last
-- terminal Process of that child, if it has one.
pub maybe_converge-Blamed :
    (f : Fan) {code : String} {source : Option Evidence}
    → maybe_converge f ≡ fails code source
    → Blamed f code source
maybe_converge-Blamed f {code} {source} h =
    let j = maybe_converge-Joined f h _ in
    let reason = settle-fails f j.expected j.bound (failures j.bound) j.settled in
    let chosen =
      unsuccessful-Chosen j.bound (keep (λ c. has_failed c.status) j.bound)
        (keep (λ c. was_cancelled c.status) j.bound) refl refl reason.1 in
    record {
      child = reason.0;
      is_child = pairs-children f j.snapshot j.change_set (paired f j) chosen.is_bound;
      why = chosen.why;
      source_is = reason.2;
    }
