-- ===== src/Construction/Planned.antt =====
-- The plan of the vectors of a construction that the validator accepts.
use myknowledgebase.Prelude.{
  ℕ, ◌≡◌, ◌≤◌, refl, ◌∙◌, String, Bool, true, false, not, ◌||◌, List, [], ◌∷◌, ◌++◌, ok, arith,
  require, refuse, each, >>-eq-ok, require-eq-ok, and_left, and_right, ◌==◌, string_eq, nat_eq, any,
  all, ltb, Bool-cases, inl, inr,
}
use myknowledgebase.Text.{Text}
use myknowledgebase.Structure.Model.{is_blank}
use myknowledgebase.Construction.Content.{binding_digest, alignment_invalid}
use myknowledgebase.Construction.Model.{
  ConstructionUnit, ConstructionDocument, DualChannelProjection, VectorizationUnit,
}
use myknowledgebase.Construction.Construct.{
  ConstructionDigests, is_g0_original, validate_unit, validate_construction,
}
use myknowledgebase.Construction.Plan.{
  sort_units, insert_unit, unit_leb, is_g0_summary, vectorization_plan,
}
use myknowledgebase.Construction.Goes.{
  due, due_of, fits, is_ready, plan_units, UnitChecked, validate_unit-Checked,
}

any-insert_unit :
    (f : VectorizationUnit → Bool) (u : VectorizationUnit) (vs : List VectorizationUnit)
    → any f (insert_unit u vs) ≡ (f u || any f vs)
any-insert_unit f u [] = refl
any-insert_unit f u (v ∷ vs) = elim (Bool-cases (unit_leb u v)) [
  | inl t ↦ rw t refl
  | inr t ↦ rw (t, any-insert_unit f u vs) (ground arith)
]

any-sort_units :
    (f : VectorizationUnit → Bool) (us : List VectorizationUnit) → any f (sort_units us) ≡ any f us
unfolding sort_units
any-sort_units f [] = refl
any-sort_units f (u ∷ us) = any-insert_unit f u (sort_units us) ∙ rw (any-sort_units f us) refl

any-append :
    (f : VectorizationUnit → Bool) (us vs : List VectorizationUnit)
    → any f (us ++ vs) ≡ (any f us || any f vs)
any-append f [] vs = refl
any-append f (u ∷ us) vs = rw (any-append f us vs) (ground arith)

summary_due :
    (k : ConstructionDigests) (headers : List (Text × Text)) (recipe : String)
    (u : ConstructionUnit)
    → UnitChecked k headers recipe u
    → (u.granularity == 0) ≡ true
    → any is_g0_summary (due_of k u) ≡ true
summary_due k headers recipe u c zero = rw (zero, c.summary_named, c.summaries.text, zero) refl

-- With an original of granularity 0 the plan is ready, and a summary of granularity 0 is due.
g0_due :
    (k : ConstructionDigests) (headers : List (Text × Text)) (recipe : String)
    (units : List ConstructionUnit)
    → each (validate_unit k headers recipe) units ≡ ok tt
    → any (is_g0_original k) units ≡ true
    → (any (is_ready k) units ≡ true) × (any is_g0_summary (due k units) ≡ true)
unfolding is_ready
g0_due k headers recipe [] h g = cc
g0_due k headers recipe (u ∷ us) h g =
    let c = >>-eq-ok (validate_unit k headers recipe u) _ h in
    elim (Bool-cases (is_g0_original k u)) [
      | inl here ↦
          let zero = and_left (u.granularity == 0) _ here in
          let attached =
            and_right (not (is_blank u.original.body)) _ (and_right (u.granularity == 0) _ here) in
          (
            rw (zero, attached) refl,
            any-append is_g0_summary (due_of k u) (due k us)
                ∙ rw
                    (summary_due k headers recipe u (validate_unit-Checked k headers recipe u c.0)
                      zero)
                    refl,
          )
      | inr there ↦
          let ih = g0_due k headers recipe us c.1 (rw there at g) in
          (
            rw ih.0 (or_true _),
            any-append is_g0_summary (due_of k u) (due k us) ∙ rw ih.1 (or_true _),
          )
    ]
  where
    or_true : (b : Bool) → (b || true) ≡ true
    or_true b = ground arith

validated :
    (k : ConstructionDigests) (document : ConstructionDocument) (dual : DualChannelProjection)
    (headers : List (Text × Text))
    → validate_construction k document dual headers ≡ ok tt
    → (each (validate_unit k headers document.content_full_recipe_version) dual.units ≡ ok tt)
      × (any (is_g0_original k) dual.units ≡ true)
unfolding validate_construction
validated k document dual headers h =
    let p = >>-eq-ok (refuse _ binding_digest) _ h in
    let q = >>-eq-ok (require _ alignment_invalid) _ p.1 in
    let r =
      >>-eq-ok (each (validate_unit k headers document.content_full_recipe_version) dual.units) _
        q.1 in
    (r.0, require-eq-ok _ _ r.1)

-- A construction that the validator accepts, and whose texts are within a positive byte budget, is
-- planned: the plan requires, in the order of granularity, unit and channel, exactly the texts of all
-- channels but the originals of granularity 0, and skips none.
pub vectorization_plan-due :
    (k : ConstructionDigests) (document : ConstructionDocument) (dual : DualChannelProjection)
    (headers : List (Text × Text)) (max : ℕ)
    → validate_construction k document dual headers ≡ ok tt
    → 1 ≤ max
    → all (fits max) dual.units ≡ true
    → vectorization_plan k document dual headers max ≡ ok (sort_units (due k dual.units), [])
unfolding vectorization_plan
vectorization_plan-due k document dual headers max valid positive fit =
    let v = validated k document dual headers valid in
    let g = g0_due k headers document.content_full_recipe_version dual.units v.0 v.1 in
    let room : ltb max 1 ≡ false = ground arith in
    rw
      (
        valid,
        room,
        plan_units k headers document.content_full_recipe_version max dual.units
            (record { required = []; skipped = []; ready = false }) v.0 fit,
        g.0,
        any-sort_units is_g0_summary (due k dual.units),
        g.1,
      )
      refl
