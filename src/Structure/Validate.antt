-- ===== src/Structure/Validate.antt =====
-- `validate_structure` in src/services/lsrag_compiler/validate.py: the bindings, the partition of the
-- clean text by the content leaves, and the blocks of the projection.
use myknowledgebase.Prelude.{
  ℕ, String, Bool, not, ◌&&◌, ◌||◌, some, List, [], ◌∷◌, ◌++◌, Result, ok, ◌>>=◌, ◌>>◌, require,
  refuse, of_option, fold_ok, ◌==◌, string_eq, nat_eq, option_eq, leb, ltb, all, any, keep, length,
  contains, add, if◌then◌else◌,
}
use myknowledgebase.Text.{Text, encode}
use myknowledgebase.Structure.Model.{
  Fault, TextSpan, StructureNode, StructureDocument, RetrievalBlock, Projection, Digests,
  binding_clean_digest, binding_cross_generation, binding_digest, anchor_missing, anchor_digest,
  coverage_invalid, projection_invalid, projection_node, projection_order, projection_original,
  projection_g0_required, is_empty, is_blank, span_text,
}
use myknowledgebase.Structure.Tree.{validate_tree, is_leaf, node_ids}
use myknowledgebase.Structure.Texts.{text_eq}

-- The loop over the anchors, with `expected_start`.
abbrev pub cover_step : Text → ℕ → TextSpan → Result Fault ℕ
cover_step clean expected span = do
  text ← span_text clean span.start_byte span.end_byte
  require ((span.start_byte == expected) && ltb span.start_byte span.end_byte) coverage_invalid
  ok span.end_byte

abbrev pub validate_coverage : Text → List TextSpan → Result Fault (Unit {0})
validate_coverage clean spans = do
  reached ← fold_ok (cover_step clean) 0 spans
  require (not (is_empty spans) && (reached == length (encode clean))) coverage_invalid

-- The loop over the spans of a block, with `previous_end` and the pieces joined. The code starts
-- from -1, which no start is below, as none is below 0.
abbrev pub piece_step : Text → ℕ × Text → TextSpan → Result Fault (ℕ × Text)
piece_step clean (previous_end, original) span = do
  require (leb previous_end span.start_byte && ltb span.start_byte span.end_byte) projection_order
  piece ← span_text clean span.start_byte span.end_byte
  ok (span.end_byte, original ++ piece)

abbrev pub same_set : List ℕ → List ℕ → Bool
same_set xs ys = all (contains ys) xs && all (contains xs) ys

abbrev pub has_g0 : List RetrievalBlock → Bool
has_g0 blocks = any (λ b. (b.granularity == 0) && not (is_blank b.original_text)) blocks

module _ (k : Digests) where
  -- The loop over the leaves, which collects the anchors of the content.
  abbrev pub leaf_step : Text → List TextSpan → StructureNode → Result Fault (List TextSpan)
  leaf_step clean spans leaf =
      if leaf.content_role == "content"
      then (do
        anchor ← of_option leaf.source_anchor anchor_missing
        anchored ← span_text clean anchor.start_byte anchor.end_byte
        require (leaf.content_digest == some (k.text_digest anchored)) anchor_digest
        ok (spans ++ anchor ∷ []))
      else ok spans

  abbrev pub leaf_spans : Text → List StructureNode → Result Fault (List TextSpan)
  leaf_spans clean nodes = fold_ok (leaf_step clean) [] (keep (is_leaf nodes) nodes)

  -- The body of the loop over the blocks, with `block_ids` and `granularities`.
  unfoldable pub block_step :
      Text → List String → List Text × List ℕ → RetrievalBlock → Result Fault (List Text × List ℕ)
  block_step clean ids (block_ids, granularities) block = do
    refuse
        (contains block_ids block.block_id
          || not (leb block.granularity 2)
          || is_empty block.source_node_refs
          || is_empty block.ordered_source_spans)
        projection_invalid
    require (all (contains ids) block.source_node_refs) projection_node
    read ← fold_ok (piece_step clean) (0, []) block.ordered_source_spans
    require ((read.1 == block.original_text) && (block.original_digest == k.text_digest read.1))
        projection_original
    ok (block.block_id ∷ block_ids, add block.granularity granularities)

  unfoldable pub validate_projection :
      Text → List String → List ℕ → List RetrievalBlock → Result Fault (Unit {0})
  unfolding block_step
  validate_projection clean ids required blocks = do
    seen ← fold_ok (block_step clean ids) ([], []) blocks
    require (same_set seen.1 required && has_g0 blocks) projection_g0_required

  unfoldable pub validate_bindings : StructureDocument → Projection → Text → Result Fault (Unit {0})
  validate_bindings document projection clean = do
    require (document.clean_digest == k.text_digest clean) binding_clean_digest
    refuse
        (not (projection.structure_generation_artifact_uuid == document.generation_artifact_uuid)
          || (projection.generation_artifact_uuid == document.generation_artifact_uuid))
        binding_cross_generation
    require (projection.structure_document_digest == k.structure_document_digest document)
        binding_digest

  -- `validate_structure`
  unfoldable pub validate_structure :
      StructureDocument → Projection → Text → List ℕ → Result Fault (Unit {0})
  validate_structure document projection clean required = do
    validate_bindings document projection clean
    validate_tree document
    spans ← leaf_spans clean document.nodes
    validate_coverage clean spans
    validate_projection clean (node_ids document.nodes) required projection.blocks
