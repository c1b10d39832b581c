-- ===== src/Scatter/Sorted.antt =====
-- The children and the members in the order of `target_uuid` stay in pairs, and the publication of
-- each pair is then checked.
use myknowledgebase.Prelude.{
  ℕ, ◌≡◌, sym, ap, ◌∙◌, subst, ◌>>=◌, of_option, true, Option, none, some, List, [], ◌∷◌, Memᴰ, ok,
  arith, leb, Bool-cases, inl, inr, >>=-eq-ok, of_option-eq-ok,
}
use myknowledgebase.Scatter.Members.{Member}
use myknowledgebase.Scatter.Children.{publication_proof_missing, Child, Fan, Evidence, id_or}
use myknowledgebase.Scatter.Converge.{
  insert_child, sort_children, insert_member, sort_members, proofs_of, the_process, find_evidence,
  evidence_holds, checked_evidence, prove_child, prove_children,
}
use myknowledgebase.Scatter.Paired.{Published, Pairs, next, done}

-- A pair of a child and its member.
pub record Bound (R : Child → Member → Type 0) (c : Child) (m : Member) : Type 0 where
  pub pair : R c m
  pub target : c.target_uuid ≡ some m.intake_item_uuid

same_order :
    (a b : ℕ) {o p : Option ℕ} → o ≡ some a → p ≡ some b → leb (id_or o) (id_or p) ≡ leb a b
same_order a b h k = rw (h, k) (ground arith)

insert-Pairs :
    {R : Child → Member → Type 0} {c : Child} {m : Member} (cs : List Child) (ms : List Member)
    → Bound R c m
    → Pairs (Bound R) cs ms
    → Pairs (Bound R) (insert_child c cs) (insert_member m ms)
insert-Pairs {R} {c} {m} [] [] b done = next b done
insert-Pairs [] (n ∷ ns) b ps = elim ps [ ]
insert-Pairs (d ∷ ds) [] b ps = elim ps [ ]
insert-Pairs {R} {c} {m} (d ∷ ds) (n ∷ ns) b (next e ps) =
    elim (Bool-cases (leb m.intake_item_uuid n.intake_item_uuid)) [
      | inl here ↦
          let here' = same_order m.intake_item_uuid n.intake_item_uuid b.target e.target ∙ here in
          rw (here, here') (next b (next e ps))
      | inr there ↦
          let there' = same_order m.intake_item_uuid n.intake_item_uuid b.target e.target ∙ there in
          rw (there, there') (next e (insert-Pairs ds ns b ps))
    ]

pub sort-Pairs :
    {R : Child → Member → Type 0} {cs : List Child} {ms : List Member}
    → Pairs (Bound R) cs ms
    → Pairs (Bound R) (sort_children cs) (sort_members ms)
unfolding sort_children sort_members
sort-Pairs done = done
sort-Pairs (next {c} {m} {cs} {ms} b ps) =
    insert-Pairs (sort_children cs) (sort_members ms) b (sort-Pairs ps)

mem-insert_member :
    (m : Member) (ms : List Member) {a : Member} → Memᴰ a (m ∷ ms) → Memᴰ a (insert_member m ms)
mem-insert_member m [] h = h
mem-insert_member m (n ∷ ns) {a} h = elim (Bool-cases (leb m.intake_item_uuid n.intake_item_uuid)) [
  | inl here ↦ rw here h
  | inr there ↦ rw there (later h (mem-insert_member m ns))
]
  where
    later :
        Memᴰ a (m ∷ (n ∷ ns))
        → (Memᴰ a (m ∷ ns) → Memᴰ a (insert_member m ns))
        → Memᴰ a (n ∷ insert_member m ns)
    later (Memᴰ.head p) ih = Memᴰ.tail (ih (Memᴰ.head p))
    later (Memᴰ.tail (Memᴰ.head p)) ih = Memᴰ.head p
    later (Memᴰ.tail (Memᴰ.tail q)) ih = Memᴰ.tail (ih (Memᴰ.tail q))

pub mem-sort_members : (ms : List Member) {a : Member} → Memᴰ a ms → Memᴰ a (sort_members ms)
unfolding sort_members
mem-sort_members [] h = elim h [ ]
mem-sort_members (m ∷ ms) (Memᴰ.head p) = mem-insert_member m (sort_members ms) (Memᴰ.head p)
mem-sort_members (m ∷ ms) (Memᴰ.tail q) =
    mem-insert_member m (sort_members ms) (Memᴰ.tail (mem-sort_members ms q))

pub find-Pairs :
    {R : Child → Member → Type 0} {cs : List Child} {ms : List Member} {a : Member}
    → Pairs R cs ms
    → Memᴰ a ms
    → (c : Child) × R c a
find-Pairs done h = elim h [ ]
find-Pairs {R} {cs} {ms} {a} (next {c} {m} r ps) (Memᴰ.head p) = (c, subst (λ x. R c x) (sym p) r)
find-Pairs (next r ps) (Memᴰ.tail q) = find-Pairs ps q

checked_evidence-ok :
    (c : Child) (o : Option Evidence) {e : Evidence}
    → checked_evidence c o ≡ ok e
    → (o ≡ some e) × (evidence_holds c e ≡ true)
checked_evidence-ok c none h = cc
checked_evidence-ok c (some d) {e} h = elim (Bool-cases (evidence_holds c d)) [
  | inl holds ↦
      let same : d ≡ e = cc (rw holds at h) in
      (ap (λ x. some x) same, subst (λ x. evidence_holds c x ≡ true) same holds)
  | inr fails ↦ cc (rw fails at h)
]

prove_child-Published :
    (f : Fan) (c : Child) (m : Member) {e : Evidence} → prove_child f c m ≡ ok e → Published f c m
prove_child-Published f c m {e} h =
    let first =
      >>=-eq-ok (of_option (the_process (proofs_of f.proofs c m)) publication_proof_missing)
        (λ process. checked_evidence c (find_evidence f.processes process c.execution_uuid)) h in
    let found = find_evidence f.processes first.0 c.execution_uuid in
    let holds = checked_evidence-ok c found first.2 in
    record {
      process = first.0;
      proof =
          of_option-eq-ok (the_process (proofs_of f.proofs c m)) publication_proof_missing first.1;
      evidence = e;
      found = holds.0;
      holds = holds.1;
    }

-- A pair whose publication is proved.
pub record Proved (R : Child → Member → Type 0) (f : Fan) (c : Child) (m : Member) : Type 0 where
  pub pair : R c m
  pub published : Published f c m

pub prove_children-Proved :
    {R : Child → Member → Type 0} (f : Fan) (cs : List Child) (ms : List Member)
    {es : List Evidence}
    → Pairs R cs ms
    → prove_children f cs ms ≡ ok es
    → Pairs (Proved R f) cs ms
unfolding prove_children
prove_children-Proved f [] [] done h = done
prove_children-Proved f [] (m ∷ ms) ps h = elim ps [ ]
prove_children-Proved f (c ∷ cs) [] ps h = elim ps [ ]
prove_children-Proved f (c ∷ cs) (m ∷ ms) (next r ps) h =
    let first =
      >>=-eq-ok (prove_child f c m) (λ e. prove_children f cs ms >>= λ es. ok (e ∷ es)) h in
    let rest = >>=-eq-ok (prove_children f cs ms) (λ es. ok (first.0 ∷ es)) first.2 in
    next (record { pair = r; published = prove_child-Published f c m first.1 })
      (prove_children-Proved f cs ms ps rest.1)
