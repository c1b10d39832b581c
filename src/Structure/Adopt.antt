-- ===== src/Structure/Adopt.antt =====
-- `_adopt_layered_json` of src/services/lsrag_compiler/adopt.py: the anchors of a candidate in the clean
-- text, and the structure and projection that it makes of them.
use myknowledgebase.Prelude.{
  ℕ, zero, suc, ◌+◌, String, Bool, true, false, not, ◌&&◌, ◌||◌, Option, none, some, List, [], ◌∷◌,
  ◌++◌, Result, ok, ◌>>=◌, ◌>>◌, require, refuse, of_option, fold_ok, lookup, ◌==◌, string_eq,
  nat_eq, option_eq, leb, length, if◌then◌else◌, is_some,
}
use myknowledgebase.Text.{Text, encode}
use myknowledgebase.Text.Slices.{drop}
use myknowledgebase.Structure.Texts.{text_eq}
use myknowledgebase.Structure.Model.{
  Fault, StructureNode, StructureDocument, RetrievalBlock, Projection, Anchor, Digests,
  kernel_empty, binding_invalid, binding_clean_digest, anchor_missing, is_empty, is_blank,
  normalize_layered_text, byte_offset,
}
use myknowledgebase.Structure.Names.{block_name}
use myknowledgebase.Structure.Candidate.{
  LayeredBlock, block_key, has_text, declared_granularities, normalize_layered_candidate,
}
use myknowledgebase.Structure.Sorting.{sorted_by}
use myknowledgebase.Structure.Validate.{validate_structure}

abbrev pub starts_with : Text → Text → Bool
starts_with [] t = true
starts_with (c ∷ s) [] = false
starts_with (c ∷ s) (d ∷ t) = (c == d) && starts_with s t

abbrev pub plus : ℕ → Option ℕ → Option ℕ
plus n none = none
plus n (some i) = some (n + i)

-- `text.find(body)`
unfoldable pub find : Text → Text → Option ℕ
find body [] = if is_empty body then some 0 else none
find body (c ∷ t) =
    let rest = plus 1 (find body t) in if starts_with body (c ∷ t) then some 0 else rest

-- `text.find(body, start)`
abbrev pub find_from : Text → Text → ℕ → Option ℕ
find_from body t start =
    if leb start (length t) then plus start (find body (drop start t)) else none

-- `text.count(body)`, for a body that is not empty, on fuel: a round takes a character at least.
unfoldable pub count : ℕ → Text → Text → ℕ
count zero body t = 0
count (suc fuel) body t = elim (find body t) [
  | none ↦ 0
  | some i ↦ suc (count fuel body (drop (i + length body) t))
]

abbrev pub or_zero : Option ℕ → ℕ
or_zero none = 0
or_zero (some n) = n

-- `max(n, 1)`
abbrev pub at_least_one : ℕ → ℕ
at_least_one n = if n == 0 then 1 else n

-- `search_from`, the blocks and the report, while the blocks are anchored.
pub record Anchoring : Type 0 where
  pub search_from : List (ℕ × ℕ)
  pub blocks : List RetrievalBlock
  pub report : List Anchor

abbrev pub leaf_id : String
leaf_id = "node-0001"

-- What the caller gives beside the texts. The identity of the projection stands for the default
-- that the code makes where the caller gives none.
pub record Bindings : Type 0 where
  pub generation_artifact_uuid : String
  pub projection_generation_artifact_uuid : String
  pub clean_artifact_uuid : String
  pub clean_digest : Option String
  pub granularity_set : Option (List ℕ)

module _ (k : Digests) where
  abbrev pub retrieval_block : Text → LayeredBlock → Text → ℕ → RetrievalBlock
  retrieval_block clean raw body first = record {
    block_id = block_name raw.granularity raw.block_id;
    granularity = raw.granularity;
    source_node_refs = leaf_id ∷ [];
    ordered_source_spans =
        (record {
          start_byte = byte_offset clean first;
          end_byte = byte_offset clean (first + length body);
        })
        ∷ [];
    original_text = body;
    original_digest = k.text_digest body;
  }

  abbrev pub anchor_entry : Text → LayeredBlock → Text → ℕ → Anchor
  anchor_entry clean raw body first = record {
    block_id = raw.block_id;
    projection_block_id = block_name raw.granularity raw.block_id;
    granularity = raw.granularity;
    start_byte = byte_offset clean first;
    end_byte = byte_offset clean (first + length body);
    occurrence_count = count (suc (length clean)) body clean;
  }

  -- The body of the loop over the sorted blocks.
  unfoldable pub anchor_step : Text → Anchoring → LayeredBlock → Result Fault Anchoring
  anchor_step clean a raw = do
    require (has_text raw.body) anchor_missing
    raw_body ← of_option raw.body anchor_missing
    let body = normalize_layered_text k raw_body
    refuse ((raw.granularity == 0) && not (body == clean)) anchor_missing
    require (is_some (find body clean)) anchor_missing
    first ←
        of_option (find_from body clean (or_zero (lookup a.search_from raw.granularity)))
          anchor_missing
    ok (record {
      search_from = (raw.granularity, first + at_least_one (length body)) ∷ a.search_from;
      blocks = a.blocks ++ retrieval_block clean raw body first ∷ [];
      report = a.report ++ anchor_entry clean raw body first ∷ [];
    })

  abbrev pub root_node : Text → StructureNode
  root_node clean = record {
    node_id = "root";
    node_kind = "document";
    parent_node_id = none;
    sibling_ordinal = 0;
    depth = 0;
    reading_ordinal = 0;
    content_role = "container";
    source_anchor = none;
    content_digest = none;
    subtree_digest = k.children_digest (k.text_digest clean ∷ []);
  }

  abbrev pub leaf_node : Text → StructureNode
  leaf_node clean = record {
    node_id = leaf_id;
    node_kind = "paragraph";
    parent_node_id = some "root";
    sibling_ordinal = 0;
    depth = 1;
    reading_ordinal = 1;
    content_role = "content";
    source_anchor = some (record { start_byte = 0; end_byte = length (encode clean) });
    content_digest = some (k.text_digest clean);
    subtree_digest = k.text_digest clean;
  }

  abbrev pub layered_document : String → String → Text → StructureDocument
  layered_document generation clean_artifact clean = record {
    generation_artifact_uuid = generation;
    clean_artifact_uuid = clean_artifact;
    clean_digest = k.text_digest clean;
    document_root_node_id = "root";
    nodes = root_node clean ∷ leaf_node clean ∷ [];
    proof_digest = k.tree_proof (length (encode clean));
  }

  abbrev pub projected : Bindings → Text → List RetrievalBlock → String → Projection
  projected b clean blocks proof = record {
    generation_artifact_uuid = b.projection_generation_artifact_uuid;
    structure_generation_artifact_uuid = b.generation_artifact_uuid;
    structure_document_digest =
        k.structure_document_digest
          (layered_document b.generation_artifact_uuid b.clean_artifact_uuid clean);
    blocks = blocks;
    proof_digest = proof;
  }

  -- Everything up to the check of the structure.
  unfoldable pub project_candidate :
      Bindings → Text → List LayeredBlock → Result Fault (StructureDocument × Projection × List ℕ)
  project_candidate b clean raw_blocks = do
    refuse (is_blank clean) kernel_empty
    refuse ((b.generation_artifact_uuid == "") || (b.clean_artifact_uuid == "")) binding_invalid
    refuse (b.projection_generation_artifact_uuid == b.generation_artifact_uuid) binding_invalid
    declared ← declared_granularities b.granularity_set
    refuse (is_some b.clean_digest && not (b.clean_digest == some (k.text_digest clean)))
        binding_clean_digest
    candidate ← normalize_layered_candidate k clean raw_blocks (some declared)
    a ←
        fold_ok (anchor_step clean) (record { search_from = []; blocks = []; report = [] })
          (sorted_by block_key candidate)
    let document = layered_document b.generation_artifact_uuid b.clean_artifact_uuid clean
    ok (document, projected b clean a.blocks (k.coverage_proof a.report declared), declared)

  -- `_adopt_layered_json`
  unfoldable pub adopt_layered_json :
      Bindings → Text → List LayeredBlock → Result Fault (StructureDocument × Projection)
  adopt_layered_json b clean_text raw_blocks = do
    let clean = normalize_layered_text k clean_text
    r ← project_candidate b clean raw_blocks
    validate_structure k r.0 r.1 clean r.2
    ok (r.0, r.1)
