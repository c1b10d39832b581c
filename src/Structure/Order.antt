-- ===== src/Structure/Order.antt =====
-- The places of the blocks of one granularity, as `search_from` of `_adopt_layered_json` moves on.
use mathlib.Core.List.{append_assoc, append-nil}
use myknowledgebase.Prelude.{
  beq_false→ne, length-append, ℕ, zero, suc, ◌+◌, ◌≤◌, ◌≡◌, refl, sym, ap, ◌∙◌, subst, List, [],
  ◌∷◌, ◌++◌, ok, arith, length, lookup, ◌==◌, nat_eq, fold_ok, >>=-eq-ok, >>-eq-ok, ok_injective,
  Bool-cases, inl, inr, beq→eq, string_eq, option_eq,
}
use myknowledgebase.Text.{char_bytes, Text, IsScalar, encode}
use myknowledgebase.Text.Slices.{take}
use myknowledgebase.Structure.Model.{
  Digests, TextSpan, RetrievalBlock, StructureDocument, Projection, byte_offset,
  normalize_layered_text,
}
use myknowledgebase.Structure.Candidate.{LayeredBlock, block_key}
use myknowledgebase.Structure.Sorting.{sorted_by}
use myknowledgebase.Structure.Adopt.{
  at_least_one, Anchoring, Bindings, anchor_step, retrieval_block, or_zero, project_candidate,
  adopt_layered_json,
}
use myknowledgebase.Structure.Anchored.{KeepsText, anchor_step-ok}
use myknowledgebase.Structure.Projected.{nothing_anchored, project_candidate-Projected}
use myknowledgebase.Structure.Validate.{validate_structure}

abbrev pub span_start : List TextSpan → ℕ
span_start [] = 0
span_start (s ∷ spans) = s.start_byte

abbrev pub span_end : List TextSpan → ℕ
span_end [] = 0
span_end (s ∷ spans) = s.end_byte

-- A block that stands after another one, if they have the same granularity.
abbrev pub Follows : RetrievalBlock → RetrievalBlock → Type 0
Follows b c =
    b.granularity ≡ c.granularity
    → span_end b.ordered_source_spans ≤ span_start c.ordered_source_spans

abbrev pub AllFollow : RetrievalBlock → List RetrievalBlock → Type 0
AllFollow b [] = Unit
AllFollow b (c ∷ cs) = Follows b c × AllFollow b cs

abbrev pub InOrder : List RetrievalBlock → Type 0
InOrder [] = Unit
InOrder (b ∷ bs) = AllFollow b bs × InOrder bs

byte_offset_mono : (t : Text) (i j : ℕ) → i ≤ j → byte_offset t i ≤ byte_offset t j
unfolding byte_offset encode
byte_offset_mono t zero j h = omega arith
byte_offset_mono [] (suc i) (suc j) h = omega arith
byte_offset_mono (c ∷ t) (suc i) zero h = absurd (omega arith)
byte_offset_mono (c ∷ t) (suc i) (suc j) h = omega (
  arith,
  length-append (char_bytes c) (encode (take i t)),
  length-append (char_bytes c) (encode (take j t)),
  byte_offset_mono t i j (omega arith),
)
byte_offset_mono [] (suc i) zero h = omega arith

-- Every block starts no earlier than the search for its granularity may.
abbrev AllFrom : Text → List (ℕ × ℕ) → List RetrievalBlock → Type 0
AllFrom clean sf [] = Unit
AllFrom clean sf (c ∷ cs) =
    (byte_offset clean (or_zero (lookup sf c.granularity)) ≤ span_start c.ordered_source_spans)
    × AllFrom clean sf cs

moved :
    (clean : Text) (sf : List (ℕ × ℕ)) (b : RetrievalBlock) (first n step : ℕ)
    (cs : List RetrievalBlock)
    → n ≤ step
    → or_zero (lookup sf b.granularity) ≤ first
    → span_end b.ordered_source_spans ≡ byte_offset clean (first + n)
    → AllFrom clean ((b.granularity, first + step) ∷ sf) cs
    → AllFrom clean sf cs × AllFollow b cs
moved clean sf b first n step [] l h e f = (tt, tt)
moved clean sf b first n step (c ∷ cs) l h e (f, fs) =
    let rest = moved clean sf b first n step cs l h e fs in
    elim (Bool-cases (b.granularity == c.granularity)) [
      | inl same ↦
          let g : c.granularity ≡ b.granularity = sym (beq→eq b.granularity c.granularity same) in
          let here : byte_offset clean (first + step) ≤ span_start c.ordered_source_spans =
            rw same at f in
          let before : or_zero (lookup sf c.granularity) ≤ first + step = rw g (omega arith) in
          let low =
            byte_offset_mono clean (or_zero (lookup sf c.granularity)) (first + step) before in
          let ended = byte_offset_mono clean (first + n) (first + step) (omega (arith, l)) in
          ((omega arith, rest.0), ((λ _. omega arith), rest.1))
      | inr other ↦ ((rw other at f, rest.0), ((λ eq. absurd (beq_false→ne _ _ other eq)), rest.1))
    ]

at_least_one_ge : (n : ℕ) → n ≤ at_least_one n
at_least_one_ge n = ground arith

fold_ok-InOrder :
    (k : Digests) (clean : Text) (raws : List LayeredBlock) (a : Anchoring) {after : Anchoring}
    → KeepsText k
    → IsScalar clean
    → fold_ok (anchor_step k clean) a raws ≡ ok after
    → (added : List RetrievalBlock) × (after.blocks ≡ a.blocks ++ added)
      × AllFrom clean a.search_from added
      × InOrder added
fold_ok-InOrder k clean [] a keeps scalar h = (
  [],
  ap (λ (x : Anchoring). x.blocks) (sym (ok_injective h)) ∙ sym (append-nil a.blocks),
  tt,
  tt,
)
fold_ok-InOrder k clean (raw ∷ raws) a keeps scalar h =
    let r = >>=-eq-ok (anchor_step k clean a raw) (λ x. fold_ok (anchor_step k clean) x raws) h in
    let step = anchor_step-ok k clean a raw keeps scalar r.1 in
    let rest = fold_ok-InOrder k clean raws r.0 keeps scalar r.2 in
    let block = retrieval_block k clean raw step.0 step.1 in
    let from = subst (λ sf. AllFrom clean sf rest.0) step.3 rest.2 in
    let m =
      moved clean a.search_from block step.1 (length step.0) (at_least_one (length step.0)) rest.0
        (at_least_one_ge (length step.0)) step.2 refl from in
    (
      block ∷ rest.0,
      rest.1 ∙ ap (λ x. x ++ rest.0) step.4 ∙ append_assoc a.blocks (block ∷ []) rest.0,
      (byte_offset_mono clean _ _ step.2, m.0),
      (m.1, rest.3),
    )

-- For a text of scalar values, and if NFC keeps characters that are not space, the blocks of one
-- granularity that an adoption gives have spans that follow one another, without overlaps.
pub adopt_layered_json-InOrder :
    (k : Digests) (b : Bindings) (clean_text : Text) (raws : List LayeredBlock)
    {r : StructureDocument × Projection}
    → KeepsText k
    → IsScalar (normalize_layered_text k clean_text)
    → adopt_layered_json k b clean_text raws ≡ ok r
    → InOrder r.1.blocks
unfolding adopt_layered_json
adopt_layered_json-InOrder k b clean_text raws {r} keeps scalar h =
    let clean = normalize_layered_text k clean_text in
    let p = >>=-eq-ok (project_candidate k b clean raws) _ h in
    let q = >>-eq-ok (validate_structure k p.0.0 p.0.1 clean p.0.2) _ p.2 in
    let e = project_candidate-Projected k b clean raws p.1 in
    let f =
      fold_ok-InOrder k clean (sorted_by block_key e.candidate) nothing_anchored keeps scalar
        e.anchors in
    let blocks : e.anchoring.blocks ≡ r.1.blocks =
      ap (λ (x : StructureDocument × Projection × List ℕ). x.1.blocks) e.result
      ∙ ap (λ (x : StructureDocument × Projection). x.1.blocks) (ok_injective q.1) in
    subst InOrder (sym f.1 ∙ blocks) f.3
