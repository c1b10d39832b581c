-- ===== src/Structure/Samples.antt =====
-- A small candidate, adopted on a text of two words.
use myknowledgebase.Prelude.{
  ℕ, ◌<◌, ◌≤◌, ◌≡◌, refl, none, some, List, [], ◌∷◌, Memᴰ, ok, err, ◌>>=◌, arith, string_eq, nat_eq,
}
use myknowledgebase.Text.{IsScalar, Text, char_bytes, encode, decode_from}
use myknowledgebase.Structure.Model.{
  Digests, RetrievalBlock, StructureDocument, Projection, TextSpan, alignment_invalid,
  anchor_missing, span_text, byte_offset, normalize_layered_text,
}
use myknowledgebase.Structure.Names.{
  decimal, padded, block_name, block_number, block_number-block_name,
}
use myknowledgebase.Structure.Tree.{validate_tree}
use myknowledgebase.Structure.Validate.{
  block_step, validate_projection, validate_bindings, validate_structure,
}
use myknowledgebase.Structure.Candidate.{
  LayeredBlock, declared_granularities, candidate_blocks, normalize_layered_candidate,
}
use myknowledgebase.Structure.Sorting.{sorted_by}
use myknowledgebase.Structure.Adopt.{
  Bindings, find, count, anchor_step, layered_document, project_candidate, adopt_layered_json,
}
use myknowledgebase.Structure.Reading.{read_document, read_spans, validate_structure-read}
use myknowledgebase.Structure.Redundant.{without_profile, adopt_layered_json-project_candidate}
use myknowledgebase.Structure.Order.{InOrder, adopt_layered_json-InOrder}

abbrev plain : Digests
plain = record {
  text_digest = λ t. "text";
  structure_document_digest = λ d. "document";
  children_digest = λ ds. "children";
  tree_proof = λ n. "tree";
  coverage_proof = λ r gs. "coverage";
  nfc = λ t. t;
}

-- The second character takes two bytes.
abbrev clean : Text
clean = b'a' ∷ 0xE9 ∷ b' ' ∷ b'c' ∷ b'd' ∷ []

abbrev block : ℕ → ℕ → Text → LayeredBlock
block g n body = record { block_id = n; granularity = g; title = none; body = some body }

abbrev raws : List LayeredBlock
raws =
    block 1 2 (b'c' ∷ b'd' ∷ [])
    ∷ (record { block_id = 0; granularity = 0; title = none; body = none })
    ∷ block 1 1 (b'a' ∷ 0xE9 ∷ [])
    ∷ []

abbrev bindings : Bindings
bindings = record {
  generation_artifact_uuid = "structure";
  projection_generation_artifact_uuid = "projection";
  clean_artifact_uuid = "clean";
  clean_digest = some "text";
  granularity_set = some (1 ∷ 0 ∷ []);
}

abbrev span : ℕ → ℕ → TextSpan
span a b = record { start_byte = a; end_byte = b }

abbrev adopted_block : ℕ → Text → Text → TextSpan → RetrievalBlock
adopted_block g name text s = record {
  block_id = name;
  granularity = g;
  source_node_refs = "node-0001" ∷ [];
  ordered_source_spans = s ∷ [];
  original_text = text;
  original_digest = "text";
}

abbrev projection : Projection
projection = record {
  generation_artifact_uuid = "projection";
  structure_generation_artifact_uuid = "structure";
  structure_document_digest = "document";
  blocks =
      adopted_block 0 (b'g' ∷ b'0' ∷ b':' ∷ b'b' ∷ b'0' ∷ b'0' ∷ b'0' ∷ b'0' ∷ []) clean (span 0 6)
      ∷ adopted_block 1 (b'g' ∷ b'1' ∷ b':' ∷ b'b' ∷ b'0' ∷ b'0' ∷ b'0' ∷ b'1' ∷ [])
          (b'a' ∷ 0xE9 ∷ []) (span 0 3)
      ∷ adopted_block 1 (b'g' ∷ b'1' ∷ b':' ∷ b'b' ∷ b'0' ∷ b'0' ∷ b'0' ∷ b'2' ∷ [])
          (b'c' ∷ b'd' ∷ []) (span 4 6)
      ∷ [];
  proof_digest = "coverage";
}

abbrev document : StructureDocument
document = layered_document plain "structure" "clean" clean

adopts : adopt_layered_json plain bindings clean raws ≡ ok (document, projection)
unfolding adopt_layered_json project_candidate normalize_layered_text declared_granularities
    normalize_layered_candidate candidate_blocks sorted_by anchor_step find count byte_offset encode
    char_bytes block_name padded decimal validate_structure validate_tree validate_bindings
    validate_projection block_step span_text decode_from
adopts = refl

valid : validate_structure plain document projection clean (0 ∷ 1 ∷ []) ≡ ok tt
unfolding validate_structure validate_tree validate_bindings validate_projection block_step
    span_text decode_from encode char_bytes
valid = refl

validate_structure-read_example :
    (read_document clean document ≡ ok clean)
    × ((b : RetrievalBlock)
        → Memᴰ b projection.blocks
        → read_spans clean b.ordered_source_spans ≡ ok b.original_text)
validate_structure-read_example =
    validate_structure-read plain document projection clean (0 ∷ 1 ∷ []) refl valid

scalar : IsScalar (normalize_layered_text plain clean)
unfolding normalize_layered_text
scalar = refl

adopt_layered_json-project_candidate_example : adopt_layered_json plain bindings clean raws ≡ (
    project_candidate plain bindings (normalize_layered_text plain clean) raws >>= without_profile)
adopt_layered_json-project_candidate_example =
    adopt_layered_json-project_candidate plain bindings clean raws (λ t h. h) scalar

adopt_layered_json-InOrder_example : InOrder projection.blocks
adopt_layered_json-InOrder_example =
    adopt_layered_json-InOrder plain bindings clean raws {r = (document, projection)} (λ t h. h)
      scalar adopts

block_number-block_name_example :
    (12 < 10000 → block_number (block_name 1 12) ≡ ok 12)
    × (10000 ≤ 12 → block_number (block_name 1 12) ≡ err alignment_invalid)
block_number-block_name_example = block_number-block_name 1 12 (omega arith)

-- A block that stands earlier in the text than one with a lower number is not found.
out_of_order :
    adopt_layered_json plain bindings clean
      (block 0 0 clean ∷ block 1 1 (b'c' ∷ b'd' ∷ []) ∷ block 1 2 (b'a' ∷ 0xE9 ∷ []) ∷ [])
    ≡ err anchor_missing
unfolding adopt_layered_json project_candidate normalize_layered_text declared_granularities
    normalize_layered_candidate candidate_blocks sorted_by anchor_step find byte_offset encode
    char_bytes
out_of_order = refl
