-- ===== src/Structure/Reading.antt =====
-- What an accepted structure says of the clean text: its content leaves partition it, and every block
-- is read from it.
use mathlib.Core.List.{append_assoc, append-nil}
use myknowledgebase.Prelude.{
  all, and_right, and_left, contains, refuse, String, Option-cases, ◌||◌, ℕ, ◌+◌, ◌-◌, ◌≤◌, ◌≡◌,
  refl, sym, ap, ◌∙◌, subst, Bool, true, ◌&&◌, not, some, Option, List, [], ◌∷◌, ◌++◌, Memᴰ, Result,
  ok, ◌>>=◌, >>=-eq-ok, >>-eq-ok, require-eq-ok, of_option-eq-ok, fold_ok, fold_ok-mem, keep, arith,
  length, ◌==◌, string_eq, require, beq→eq, Bool-cases, inl, inr, ltb, leb, nat_eq, option_eq,
}
use myknowledgebase.Text.{idle, decode_from, Text, Bytes, IsScalar, encode, decode}
use myknowledgebase.Text.Slices.{take-drop, drop_self, drop-drop, slice, drop}
use myknowledgebase.Text.Decoded.{decode-encode, decode_from-append}
use myknowledgebase.Structure.Model.{
  Fault, TextSpan, StructureNode, StructureDocument, RetrievalBlock, Projection, Digests, span_text,
  is_empty, coverage_invalid, anchor_digest, projection_order, projection_invalid, projection_node,
  projection_original,
}
use myknowledgebase.Structure.Tree.{is_leaf, validate_tree, node_ids}
use myknowledgebase.Structure.Texts.{text_eq}
use myknowledgebase.Structure.Validate.{
  leaf_step, leaf_spans, cover_step, validate_coverage, piece_step, validate_structure, block_step,
  validate_projection, validate_bindings,
}

-- The text at the spans of a list, one after the other.
abbrev pub read_spans : Text → List TextSpan → Result Fault Text
read_spans clean [] = ok []
read_spans clean (s ∷ spans) = do
  text ← span_text clean s.start_byte s.end_byte
  rest ← read_spans clean spans
  ok (text ++ rest)

-- The anchors of the content leaves, in the order of the nodes.
abbrev pub anchored : Bool → Option TextSpan → List TextSpan → List TextSpan
anchored true (some s) rest = s ∷ rest
anchored _ _ rest = rest

abbrev pub anchors : List StructureNode → List TextSpan
anchors [] = []
anchors (leaf ∷ leaves) =
    anchored (leaf.content_role == "content") leaf.source_anchor (anchors leaves)

-- A document read by its content leaves.
abbrev pub read_document : Text → StructureDocument → Result Fault Text
read_document clean document =
    read_spans clean (anchors (keep (is_leaf document.nodes) document.nodes))

span_text-decode :
    (clean : Text) (a b : ℕ) {t : Text}
    → span_text clean a b ≡ ok t
    → (decode (slice a b (encode clean)) ≡ some t) × (a ≤ b) × (b ≤ length (encode clean))
unfolding span_text
span_text-decode clean a b {t} h = elim (Bool-cases (ltb b a || ltb (length (encode clean)) b)) [
  | inl out ↦ cc (rw out at h)
  | inr within ↦ (of_option-eq-ok _ _ (rw within at h), ground arith, ground arith)
]

-- From a slice that starts where another one ends, the slice of both.
slice-join {ℓ} :
    {A : Type ℓ} (a b : ℕ) (xs : List A) → a ≤ b → slice a b xs ++ drop b xs ≡ drop a xs
slice-join a b xs h =
    let end : drop b xs ≡ drop (b - a) (drop a xs) =
      ap (λ n. drop n xs) split ∙ drop-drop a (b - a) xs in
    ap (λ ys. slice a b xs ++ ys) end ∙ take-drop (b - a) (drop a xs)
  where
    split : b ≡ a + (b - a)
    split = omega arith

-- What a slice and the bytes after it decode to, joined.
decode-join :
    (a b : ℕ) (bs : Bytes) {t u : Text}
    → a ≤ b
    → decode (slice a b bs) ≡ some t
    → decode (drop b bs) ≡ some u
    → decode (drop a bs) ≡ some (t ++ u)
decode-join a b bs {t} h p q =
    ap decode (sym (slice-join a b bs h))
    ∙ decode_from-append idle (slice a b bs) (drop b bs) p
    ∙ rw q refl

cover_step-ok :
    (clean : Text) (start : ℕ) (s : TextSpan) {reached : ℕ}
    → cover_step clean start s ≡ ok reached
    → (t : Text) × (span_text clean s.start_byte s.end_byte ≡ ok t)
      × (start ≡ s.start_byte)
      × (reached ≡ s.end_byte)
cover_step-ok clean start s h =
    let p = >>=-eq-ok (span_text clean s.start_byte s.end_byte) _ h in
    let q =
      >>-eq-ok (require ((s.start_byte == start) && ltb s.start_byte s.end_byte) coverage_invalid) _
        p.2 in
    let c = require-eq-ok _ _ q.0 in (p.0, p.1, ground (arith, c), cc (q.1))

covered :
    (clean : Text) (spans : List TextSpan) (start : ℕ)
    → fold_ok (cover_step clean) start spans ≡ ok (length (encode clean))
    → (t : Text) × (read_spans clean spans ≡ ok t) × (decode (drop start (encode clean)) ≡ some t)
covered clean [] start h =
    let ended : start ≡ length (encode clean) = cc in
    ([], refl, rw (ended, drop_self (encode clean)) (unfold decode_from in refl))
covered clean (s ∷ spans) start h =
    let r = >>=-eq-ok _ (λ n. fold_ok (cover_step clean) n spans) h in
    let p = cover_step-ok clean start s r.1 in
    let d = span_text-decode clean s.start_byte s.end_byte p.1 in
    let rest =
      covered clean spans s.end_byte
        (subst (λ n. fold_ok (cover_step clean) n spans ≡ ok (length (encode clean))) p.3 r.2) in
    (
      p.0 ++ rest.0,
      rw (p.1, rest.1) refl,
      rw p.2 (decode-join s.start_byte s.end_byte (encode clean) d.1 d.0 rest.2),
    )

step_read :
    (k : Digests) (clean : Text) (leaf : StructureNode) (before rest : List TextSpan)
    {after : List TextSpan}
    → leaf_step k clean before leaf ≡ ok after
    → after ++ rest ≡ before ++ anchored (leaf.content_role == "content") leaf.source_anchor rest
step_read k clean leaf before rest {after} h = elim (Bool-cases (leaf.content_role == "content")) [
  | inl content ↦ elim (Option-cases leaf.source_anchor) [
    | inl missing ↦ cc (rw (content, missing) at h)
    | inr (anchor, found) ↦
        let p =
          >>=-eq-ok (span_text clean anchor.start_byte anchor.end_byte) _
            (rw (content, found) at h) in
        let q =
          >>-eq-ok (require (leaf.content_digest == some (k.text_digest p.0)) anchor_digest) _
            p.2 in
        let e : before ++ anchor ∷ [] ≡ after = cc (q.1) in
        rw (content, found, sym e) (append_assoc before (anchor ∷ []) rest)
  ]
  | inr other ↦ let e : before ≡ after = cc (rw other at h) in rw (other, e) refl
]

leaves_read :
    (k : Digests) (clean : Text) (leaves : List StructureNode) (before : List TextSpan)
    {spans : List TextSpan}
    → fold_ok (leaf_step k clean) before leaves ≡ ok spans
    → spans ≡ before ++ anchors leaves
leaves_read k clean [] before {spans} h =
    let same : spans ≡ before = cc in same ∙ sym (append-nil before)
leaves_read k clean (leaf ∷ leaves) before h =
    let r = >>=-eq-ok _ (λ b. fold_ok (leaf_step k clean) b leaves) h in
    leaves_read k clean leaves r.0 r.2 ∙ step_read k clean leaf before (anchors leaves) r.1

coverage-read :
    (clean : Text) (spans : List TextSpan)
    → IsScalar clean
    → validate_coverage clean spans ≡ ok tt
    → read_spans clean spans ≡ ok clean
coverage-read clean spans scalar h =
    let r = >>=-eq-ok (fold_ok (cover_step clean) 0 spans) _ h in
    let test = require-eq-ok (not (is_empty spans) && (r.0 == length (encode clean))) _ r.2 in
    let e = beq→eq r.0 (length (encode clean)) (and_right _ _ test) in
    let t = covered clean spans 0 (r.1 ∙ ap ok e) in
    let same : t.0 ≡ clean = some_injective (sym t.2 ∙ decode-encode clean scalar) in
    t.1 ∙ ap ok same
  where
    some_injective : {a b : Text} → some a ≡ some b → a ≡ b
    some_injective p = cc

-- The pieces of a block, as the loop over its spans joins them.
pieces_read :
    (clean : Text) (spans : List TextSpan) (state : ℕ × Text) {after : ℕ × Text}
    → fold_ok (piece_step clean) state spans ≡ ok after
    → (t : Text) × (read_spans clean spans ≡ ok t) × (after.1 ≡ state.1 ++ t)
pieces_read clean [] (n, t) {after} h =
    let same : after.1 ≡ t = cc in ([], refl, same ∙ sym (append-nil t))
pieces_read clean (s ∷ spans) (n, t) h =
    let r = >>=-eq-ok (piece_step clean (n, t) s) (λ b. fold_ok (piece_step clean) b spans) h in
    let q =
      >>-eq-ok (require (leb n s.start_byte && ltb s.start_byte s.end_byte) projection_order)
        (span_text clean s.start_byte s.end_byte >>= λ piece. ok (s.end_byte, t ++ piece)) r.1 in
    let p =
      >>=-eq-ok (span_text clean s.start_byte s.end_byte) (λ piece. ok (s.end_byte, t ++ piece))
        q.1 in
    let rest = pieces_read clean spans r.0 r.2 in
    let joined : r.0.1 ≡ t ++ p.0 = cc (p.2) in
    (
      p.0 ++ rest.0,
      rw (p.1, rest.1) refl,
      rest.2 ∙ ap (λ x. x ++ rest.0) joined ∙ append_assoc t p.0 rest.0,
    )

block_read :
    (k : Digests) (clean : Text) (ids : List String) (state : List Text × List ℕ)
    (block : RetrievalBlock) {after : List Text × List ℕ}
    → block_step k clean ids state block ≡ ok after
    → read_spans clean block.ordered_source_spans ≡ ok block.original_text
unfolding block_step
block_read k clean ids (seen, gs) block h =
    let a =
      >>-eq-ok
        (refuse
          (contains seen block.block_id
            || not (leb block.granularity 2)
            || is_empty block.source_node_refs
            || is_empty block.ordered_source_spans)
          projection_invalid)
        _ h in
    let b = >>-eq-ok (require (all (contains ids) block.source_node_refs) projection_node) _ a.1 in
    let c = >>=-eq-ok (fold_ok (piece_step clean) (0, []) block.ordered_source_spans) _ b.1 in
    let d =
      >>-eq-ok
        (require ((c.0.1 == block.original_text) && (block.original_digest == k.text_digest c.0.1))
          projection_original)
        _ c.2 in
    let r = pieces_read clean block.ordered_source_spans (0, []) c.1 in
    let e = beq→eq c.0.1 block.original_text (and_left _ _ (require-eq-ok _ _ d.0)) in
    r.1 ∙ ap ok (sym r.2 ∙ e)

-- In an accepted structure of a text of scalar values, the anchors of the content leaves, read in
-- order, give the clean text and nothing else, and the spans of every block of the projection give its
-- original text.
pub validate_structure-read :
    (k : Digests) (document : StructureDocument) (projection : Projection) (clean : Text)
    (required : List ℕ)
    → IsScalar clean
    → validate_structure k document projection clean required ≡ ok tt
    → (read_document clean document ≡ ok clean)
      × ((block : RetrievalBlock)
          → Memᴰ block projection.blocks
          → read_spans clean block.ordered_source_spans ≡ ok block.original_text)
unfolding validate_structure validate_projection
validate_structure-read k document projection clean required scalar h =
    let a =
      >>-eq-ok (validate_tree document) _
        (>>-eq-ok (validate_bindings k document projection clean) _ h).1 in
    let s = >>=-eq-ok (leaf_spans k clean document.nodes) _ a.1 in
    let c = >>-eq-ok (validate_coverage clean s.0) _ s.2 in
    let e = leaves_read k clean (keep (is_leaf document.nodes) document.nodes) [] s.1 in
    let blocks =
      >>=-eq-ok (fold_ok (block_step k clean (node_ids document.nodes)) ([], []) projection.blocks)
        _ c.1 in
    (
      ap (read_spans clean) (sym e) ∙ coverage-read clean s.0 scalar c.0,
      λ block m.
          let r =
            fold_ok-mem (block_step k clean (node_ids document.nodes)) projection.blocks ([], [])
              blocks.1 m in
          block_read k clean (node_ids document.nodes) r.0 block r.2,
    )
