-- ===== src/Scatter/Paired.antt =====
-- The children of a scatter in pairs with their members, as the loop over `zip` meets them.
use myknowledgebase.Prelude.{
  beq→eq, ℕ, suc, ◌+◌, ◌≤◌, ◌≡◌, refl, sym, ap, ◌∙◌, subst, true, Option, none, some, List, [], ◌∷◌,
  ◌++◌, ◌==◌, nat_eq, option_eq, arith, length, Bool-cases, inl, inr,
}
use mathlib.Core.List.{append-nil, append_assoc}
use myknowledgebase.Scatter.Members.{Member}
use myknowledgebase.Scatter.Children.{
  Child, Fan, Evidence, put_member, put_members, by_item, children_of, is_bound, only_bound,
  cons_child, bind_children,
}
use myknowledgebase.Scatter.Converge.{proofs_of, the_process, find_evidence, evidence_holds}

-- A child is the only one of its member, bound as it should be.
pub record OnlyChild (f : Fan) (snapshot change_set : ℕ) (c : Child) (m : Member) : Type 0 where
  pub only : children_of m.intake_item_uuid f.children ≡ c ∷ []
  pub bound : is_bound snapshot change_set m c ≡ true
  pub target : c.target_uuid ≡ some m.intake_item_uuid

-- Its publication has one proof, of a Process that has succeeded and whose references are those of
-- the child.
pub record Published (f : Fan) (c : Child) (m : Member) : Type 0 where
  pub process : ℕ
  pub proof : the_process (proofs_of f.proofs c m) ≡ some process
  pub evidence : Evidence
  pub found : find_evidence f.processes process c.execution_uuid ≡ some evidence
  pub holds : evidence_holds c evidence ≡ true

pub data Pairs (R : Child → Member → Type 0) : List Child → List Member → Type 0 where
  done : Pairs R [] []
  next :
      {c : Child} {m : Member} {cs : List Child} {ms : List Member}
      → R c m
      → Pairs R cs ms
      → Pairs R (c ∷ cs) (m ∷ ms)

put_member-length : (m : Member) (acc : List Member) → length (put_member m acc) ≤ suc (length acc)
put_member-length m [] = omega arith
put_member-length m (n ∷ ns) = ground (arith, put_member-length m ns)

put_member_new :
    (m : Member) (acc : List Member)
    → length (put_member m acc) ≡ suc (length acc)
    → put_member m acc ≡ acc ++ m ∷ []
put_member_new m [] h = refl
put_member_new m (n ∷ ns) h = ground (arith, put_member_new m ns)

put_members-length : (acc ms : List Member) → length (put_members acc ms) ≤ length acc + length ms
put_members-length acc [] = omega arith
put_members-length acc (m ∷ ms) =
    omega (arith, put_members-length (put_member m acc) ms, put_member-length m acc)

-- Members with as many items as there are members stay as they are.
put_members_new :
    (acc ms : List Member)
    → length (put_members acc ms) ≡ length acc + length ms
    → put_members acc ms ≡ acc ++ ms
put_members_new acc [] h = sym (append-nil acc)
put_members_new acc (m ∷ ms) h =
    let e =
      put_member_new m acc
        (omega (arith, put_members-length (put_member m acc) ms, put_member-length m acc)) in
    put_members_new (put_member m acc) ms
      (omega (arith, put_members-length (put_member m acc) ms, put_member-length m acc))
    ∙ ap (λ x. x ++ ms) e
    ∙ append_assoc acc (m ∷ []) ms

pub by_item_new : (ms : List Member) → length (by_item ms) ≡ length ms → by_item ms ≡ ms
by_item_new ms h = put_members_new [] ms (omega arith)

kept_target :
    (item : ℕ) (children : List Child) {c : Child}
    → children_of item children ≡ c ∷ []
    → c.target_uuid ≡ some item
kept_target item [] h = cc
kept_target item (d ∷ ds) {c} h = elim (Bool-cases (d.target_uuid == some item)) [
  | inl here ↦
      let e : d ≡ c = cc (rw here at h) in
      subst (λ x. x.target_uuid ≡ some item) e (beq→eq _ _ here)
  | inr there ↦ kept_target item ds (rw there at h)
]

only_bound-OnlyChild :
    (f : Fan) (snapshot change_set : ℕ) (m : Member) {c : Child}
    → only_bound snapshot change_set m (children_of m.intake_item_uuid f.children) ≡ some c
    → OnlyChild f snapshot change_set c m
only_bound-OnlyChild f snapshot change_set m {c} h =
    of_children (children_of m.intake_item_uuid f.children) refl h
  where
    of_children :
        (cs : List Child)
        → children_of m.intake_item_uuid f.children ≡ cs
        → only_bound snapshot change_set m cs ≡ some c
        → OnlyChild f snapshot change_set c m
    of_children [] e g = cc
    of_children (d ∷ (d' ∷ ds)) e g = cc
    of_children (d ∷ []) e g = elim (Bool-cases (is_bound snapshot change_set m d)) [
      | inr no_binding ↦ cc (rw no_binding at g)
      | inl binding ↦
          let same : d ≡ c = cc (rw binding at g) in
          record {
            only = e ∙ ap (λ x. x ∷ []) same;
            bound = subst (λ x. is_bound snapshot change_set m x ≡ true) same binding;
            target = kept_target m.intake_item_uuid f.children (e ∙ ap (λ x. x ∷ []) same);
          }
    ]

record Consed (o : Option Child) (os : Option (List Child)) (cs : List Child) : Type 0 where
  first : Child
  rest : List Child
  first_is : o ≡ some first
  rest_is : os ≡ some rest
  same : cs ≡ first ∷ rest

cons_child-some :
    (o : Option Child) (os : Option (List Child)) {cs : List Child}
    → cons_child o os ≡ some cs
    → Consed o os cs
cons_child-some none os h = cc
cons_child-some (some c) none h = cc
cons_child-some (some c) (some cs) h = record {
  first = c;
  rest = cs;
  first_is = refl;
  rest_is = refl;
  same = cc;
}

pub bind_children-Pairs :
    (f : Fan) (snapshot change_set : ℕ) (ms : List Member) {cs : List Child}
    → bind_children snapshot change_set f.children ms ≡ some cs
    → Pairs (OnlyChild f snapshot change_set) cs ms
unfolding bind_children
bind_children-Pairs f snapshot change_set [] {cs} h =
    let same : [] ≡ cs = cc in subst (λ x. Pairs (OnlyChild f snapshot change_set) x []) same done
bind_children-Pairs f snapshot change_set (m ∷ ms) {cs} h =
    let parts = cons_child-some _ _ h in
    subst (λ x. Pairs (OnlyChild f snapshot change_set) x (m ∷ ms)) (sym parts.same)
      (next (only_bound-OnlyChild f snapshot change_set m parts.first_is)
        (bind_children-Pairs f snapshot change_set ms parts.rest_is))
