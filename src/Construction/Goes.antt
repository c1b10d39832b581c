-- ===== src/Construction/Goes.antt =====
-- What the planning of vectors takes from a construction that the validator accepts.
use mathlib.Core.List.{append_assoc, append-nil}
use myknowledgebase.Prelude.{
  not-true, ℕ, ◌≡◌, refl, ap, ◌∙◌, subst, String, Bool, true, false, not, ◌&&◌, ◌||◌, List, [], ◌∷◌,
  ◌++◌, ok, arith, require, fold_ok, each, >>-eq-ok, >>=-eq-ok, require-eq-ok, and_left, and_right,
  beq→eq, beq_refl, ok_injective, ◌==◌, string_eq, nat_eq, any, all, ltb, leb, length,
  if◌then◌else◌, Bool-cases, inl, inr,
}
use myknowledgebase.Text.{Text, encode}
use myknowledgebase.Structure.Texts.{text_eq}
use myknowledgebase.Structure.Model.{is_blank, is_empty}
use myknowledgebase.Construction.Content.{
  content_full, with_headers, joined, sort_headers, is_valid_header, recipe_unsupported,
  metadata_projection_invalid, alignment_invalid,
}
use myknowledgebase.Construction.Model.{Channel, ConstructionUnit, VectorizationUnit}
use myknowledgebase.Construction.Construct.{
  ConstructionDigests, is_reattached, validate_channel, validate_unit,
}
use myknowledgebase.Construction.Plan.{plan_channel, Planning, plan_unit, vectorization_unit}

-- The texts of a construction that are due as vectors: every channel but the original of granularity 0.
abbrev pub due_of : ConstructionDigests → ConstructionUnit → List VectorizationUnit
due_of k u =
    if u.granularity == 0
    then vectorization_unit k u u.summary u.summary.content ∷ []
    else vectorization_unit k u u.original u.original.content
      ∷ (vectorization_unit k u u.summary u.summary.content ∷ [])

abbrev pub due : ConstructionDigests → List ConstructionUnit → List VectorizationUnit
due k [] = []
due k (u ∷ us) = due_of k u ++ due k us

-- The texts of a unit are within the budget.
abbrev pub fits : ℕ → ConstructionUnit → Bool
fits max u =
    leb (length (encode u.original.content)) max && leb (length (encode u.summary.content)) max

blank-append : (s t : Text) → is_blank t ≡ false → is_blank (s ++ t) ≡ false
blank-append [] t h = h
blank-append (c ∷ s) t h = ground (arith, blank-append s t h)

content_full-text :
    (recipe : String) (headers : List (Text × Text)) (body : Text) {full : Text}
    → content_full recipe headers body ≡ ok full
    → is_blank body ≡ false
    → is_blank full ≡ false
unfolding content_full
content_full-text recipe headers body {full} h text =
    let p = >>-eq-ok (require (recipe == "content_full.v1") recipe_unsupported) _ h in
    let q =
      >>-eq-ok (require (all is_valid_header (sort_headers headers)) metadata_projection_invalid) _
        p.1 in
    subst (λ t. is_blank t ≡ false) (ok_injective q.1) (kept (sort_headers headers))
  where
    kept : (hs : List (Text × Text)) → is_blank (with_headers hs body) ≡ false
    kept [] = text
    kept (g ∷ gs) = blank-append (joined (g ∷ gs)) (10 ∷ 10 ∷ body) text

pub record ChannelChecked (k : ConstructionDigests) (headers : List (Text × Text)) (recipe : String)
    (c : Channel) : Type 0 where
  pub full : content_full recipe headers c.body ≡ ok c.content
  pub digest : c.content_digest ≡ k.base.text_digest c.content
  pub text : is_blank c.content ≡ false

validate_channel-Checked :
    (k : ConstructionDigests) (headers : List (Text × Text)) (recipe : String) (coordinate : Text)
    (c : Channel)
    → validate_channel k headers recipe coordinate c ≡ ok tt
    → ChannelChecked k headers recipe c
validate_channel-Checked k headers recipe coordinate c h =
    let p = >>-eq-ok (require _ _) _ h in
    let q = >>=-eq-ok (content_full recipe headers c.body) _ p.1 in
    let t =
      require-eq-ok ((q.0 == c.content) && (c.content_digest == k.base.text_digest q.0)) _ q.2 in
    let e = beq→eq q.0 c.content (and_left _ _ t) in
    let d = beq→eq c.content_digest (k.base.text_digest q.0) (and_right (q.0 == c.content) _ t) in
    let full = q.1 ∙ ap ok e in
    record {
      full = full;
      digest = d ∙ ap k.base.text_digest e;
      text =
          content_full-text recipe headers c.body full
            (not-true _ (and_right _ _ (and_right _ _ (require-eq-ok _ _ p.0))));
    }

pub record UnitChecked (k : ConstructionDigests) (headers : List (Text × Text)) (recipe : String)
    (u : ConstructionUnit) : Type 0 where
  pub original_named : u.original.channel ≡ "original"
  pub summary_named : u.summary.channel ≡ "summary"
  pub originals : ChannelChecked k headers recipe u.original
  pub summaries : ChannelChecked k headers recipe u.summary

pub validate_unit-Checked :
    (k : ConstructionDigests) (headers : List (Text × Text)) (recipe : String)
    (u : ConstructionUnit)
    → validate_unit k headers recipe u ≡ ok tt
    → UnitChecked k headers recipe u
validate_unit-Checked k headers recipe u h =
    let p =
      >>-eq-ok
        (require
          ((u.original.channel == "original")
            && ((u.summary.channel == "summary") && not (is_empty u.coordinate)))
          alignment_invalid)
        _ h in
    let q = >>-eq-ok (validate_channel k headers recipe u.coordinate u.original) _ p.1 in
    let t = require-eq-ok _ _ p.0 in
    record {
      original_named = beq→eq u.original.channel "original" (and_left _ _ t);
      summary_named =
          beq→eq u.summary.channel "summary"
            (and_left _ _ (and_right (u.original.channel == "original") _ t));
      originals = validate_channel-Checked k headers recipe u.coordinate u.original q.0;
      summaries = validate_channel-Checked k headers recipe u.coordinate u.summary q.1;
    }

abbrev taken : ConstructionDigests → ConstructionUnit → Channel → Planning → Planning
taken k u c p = record p { required = p.required ++ vectorization_unit k u c c.content ∷ [] }

-- A channel that is no original of granularity 0 is taken.
plan_channel-taken :
    (k : ConstructionDigests) (headers : List (Text × Text)) (recipe : String) (max : ℕ)
    (u : ConstructionUnit) (c : Channel) (p : Planning)
    → ChannelChecked k headers recipe c
    → ((u.granularity == 0) && (c.channel == "original")) ≡ false
    → leb (length (encode c.content)) max ≡ true
    → plan_channel k headers recipe max u c p ≡ ok (taken k u c p)
plan_channel-taken k headers recipe max u c p checked other small =
    let fit : ltb max (length (encode c.content)) ≡ false = ground (arith, small) in
    rw
      (
        checked.full,
        checked.digest,
        beq_refl c.content,
        beq_refl (k.base.text_digest c.content),
        other,
        checked.text,
        fit,
      )
      refl

plan_channel-passed :
    (k : ConstructionDigests) (headers : List (Text × Text)) (recipe : String) (max : ℕ)
    (u : ConstructionUnit) (c : Channel) (p : Planning)
    → ChannelChecked k headers recipe c
    → ((u.granularity == 0) && (c.channel == "original")) ≡ true
    → plan_channel k headers recipe max u c p
      ≡ ok (record p { ready = p.ready || is_reattached k u.original })
plan_channel-passed k headers recipe max u c p checked here =
    rw
      (
        checked.full,
        checked.digest,
        beq_refl c.content,
        beq_refl (k.base.text_digest c.content),
        here,
        checked.text,
      )
      refl

planned : ConstructionDigests → Planning → ConstructionUnit → Planning
planned k p u = record {
  required = p.required ++ due_of k u;
  skipped = p.skipped;
  ready = p.ready || ((u.granularity == 0) && is_reattached k u.original);
}

plan_unit-Checked :
    (k : ConstructionDigests) (headers : List (Text × Text)) (recipe : String) (max : ℕ)
    (p : Planning) (u : ConstructionUnit)
    → UnitChecked k headers recipe u
    → fits max u ≡ true
    → plan_unit k headers recipe max p u ≡ ok (planned k p u)
unfolding plan_unit planned
plan_unit-Checked k headers recipe max p u c f =
    let first = and_left (leb (length (encode u.original.content)) max) _ f in
    let second = and_right (leb (length (encode u.original.content)) max) _ f in
    let summary : ((u.granularity == 0) && (u.summary.channel == "original")) ≡ false =
      rw c.summary_named (never (u.granularity == 0)) in
    elim (Bool-cases (u.granularity == 0)) [
      | inl zero ↦
          let here : ((u.granularity == 0) && (u.original.channel == "original")) ≡ true =
            rw (c.original_named, zero) refl in
          rw (plan_channel-passed k headers recipe max u u.original p c.originals here) (
            plan_channel-taken k headers recipe max u u.summary _ c.summaries summary second
            ∙ rw zero refl)
      | inr more ↦
          let here : ((u.granularity == 0) && (u.original.channel == "original")) ≡ false =
            rw more refl in
          rw (plan_channel-taken k headers recipe max u u.original p c.originals here first) (
            plan_channel-taken k headers recipe max u u.summary _ c.summaries summary second
            ∙ rw
                (
                  more,
                  or_false p.ready,
                  append_assoc p.required
                      (vectorization_unit k u u.original u.original.content ∷ [])
                      (vectorization_unit k u u.summary u.summary.content ∷ []),
                )
                refl)
    ]
  where
    never : (b : Bool) → (b && false) ≡ false
    never b = ground arith

    or_false : (b : Bool) → (b || false) ≡ b
    or_false b = ground arith

unfoldable pub is_ready : ConstructionDigests → ConstructionUnit → Bool
is_ready k u = (u.granularity == 0) && is_reattached k u.original

-- The loop over the units.
pub plan_units :
    (k : ConstructionDigests) (headers : List (Text × Text)) (recipe : String) (max : ℕ)
    (units : List ConstructionUnit) (p : Planning)
    → each (validate_unit k headers recipe) units ≡ ok tt
    → all (fits max) units ≡ true
    → fold_ok (plan_unit k headers recipe max) p units
      ≡ ok (record {
        required = p.required ++ due k units;
        skipped = p.skipped;
        ready = p.ready || any (is_ready k) units;
      })
plan_units k headers recipe max [] p h f = rw (append-nil p.required, or_false p.ready) refl
  where
    or_false : (b : Bool) → (b || false) ≡ b
    or_false b = ground arith
plan_units k headers recipe max (u ∷ us) p h f =
    let c = >>-eq-ok (validate_unit k headers recipe u) _ h in
    let step =
      plan_unit-Checked k headers recipe max p u (validate_unit-Checked k headers recipe u c.0)
        (and_left _ _ f) in
    rw step (
      plan_units k headers recipe max us (planned k p u) c.1 (and_right (fits max u) _ f)
      ∙ unfold planned is_ready in
        rw
          (
            append_assoc p.required (due_of k u) (due k us),
            or_assoc p.ready ((u.granularity == 0) && is_reattached k u.original)
                (any (is_ready k) us),
          )
          refl)
  where
    or_assoc : (a b c : Bool) → ((a || b) || c) ≡ (a || (b || c))
    or_assoc a b c = ground arith
