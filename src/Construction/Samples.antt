-- ===== src/Construction/Samples.antt =====
-- The construction of the sample of Structure, with a header.
use myknowledgebase.Prelude.{
  all, ℕ, ◌≡◌, refl, true, false, List, [], ◌∷◌, ok, arith, nat_eq, string_eq,
}
use myknowledgebase.Text.{Text, char_bytes, encode, decode_from}
use myknowledgebase.Structure.Model.{Digests, Projection, RetrievalBlock, is_empty, span_text}
use myknowledgebase.Structure.Tree.{validate_tree}
use myknowledgebase.Structure.Validate.{
  block_step, validate_projection, validate_bindings, validate_structure,
}
use myknowledgebase.Structure.Adopt.{layered_document}
use myknowledgebase.Construction.Content.{content_full}
use myknowledgebase.Construction.Separated.{after_empty_line, content_full-body}
use myknowledgebase.Construction.Model.{
  ConstructionUnit, ConstructionDocument, DualChannelProjection,
}
use myknowledgebase.Construction.Construct.{
  ConstructionDigests, unit_of, document_of, dual_of, construct, validate_construction,
}
use myknowledgebase.Construction.Plan.{vectorization_plan, sort_units}
use myknowledgebase.Construction.Goes.{due, fits}
use myknowledgebase.Construction.Planned.{vectorization_plan-due}

abbrev plain : Digests
plain = record {
  text_digest = λ t. "text";
  structure_document_digest = λ d. "document";
  children_digest = λ ds. "children";
  tree_proof = λ n. "tree";
  coverage_proof = λ r gs. "coverage";
  nfc = λ t. t;
}

abbrev digests : ConstructionDigests
digests = record {
  base = plain;
  projection_digest = λ p. "projection";
  construction_document_digest = λ d. "construction";
  metadata_digest = λ h. "metadata";
  alignment_proof = λ a. "alignment";
  channels_proof = λ c. "channels";
}

abbrev clean : Text
clean = b'a' ∷ b'b' ∷ []

abbrev whole : ℕ → Text → RetrievalBlock
whole g name = record {
  block_id = name;
  granularity = g;
  source_node_refs = "node-0001" ∷ [];
  ordered_source_spans = (record { start_byte = 0; end_byte = 2 }) ∷ [];
  original_text = clean;
  original_digest = "text";
}

abbrev projection : Projection
projection = record {
  generation_artifact_uuid = "p";
  structure_generation_artifact_uuid = "s";
  structure_document_digest = "document";
  blocks = whole 0 (b'x' ∷ []) ∷ whole 1 (b'y' ∷ []) ∷ [];
  proof_digest = "coverage";
}

abbrev headers : List (Text × Text)
headers = (b't' ∷ [], b'v' ∷ []) ∷ (b'a' ∷ b'b' ∷ [], []) ∷ []

abbrev summaries : List (Text × Text)
summaries = (b'x' ∷ [], b'1' ∷ []) ∷ (b'y' ∷ [], b'2' ∷ []) ∷ []

abbrev shown : Text → Text
shown body = b'a' ∷ b'b' ∷ b':' ∷ b' ' ∷ 10 ∷ b't' ∷ b':' ∷ b' ' ∷ b'v' ∷ 10 ∷ 10 ∷ body

abbrev units : List ConstructionUnit
units =
    unit_of digests (b's' ∷ b':' ∷ b'p' ∷ b':' ∷ b'x' ∷ []) (whole 0 (b'x' ∷ [])) (b'1' ∷ [])
      (shown clean) (shown (b'1' ∷ []))
    ∷ unit_of digests (b's' ∷ b':' ∷ b'p' ∷ b':' ∷ b'y' ∷ []) (whole 1 (b'y' ∷ [])) (b'2' ∷ [])
        (shown clean) (shown (b'2' ∷ []))
    ∷ []

abbrev document : ConstructionDocument
document =
    document_of digests (layered_document plain "s" "c" clean) projection "d" headers
      "content_full.v1" units "alignment"

abbrev dual : DualChannelProjection
dual = dual_of digests "u" document

constructs :
    construct digests
      (layered_document plain "s" "c" clean)
      projection
      clean
      "d"
      "u"
      summaries
      headers
      "content_full.v1"
      (0 ∷ 1 ∷ [])
    ≡ ok (document, dual)
unfolding construct content_full validate_construction validate_structure validate_tree
    validate_bindings validate_projection block_step span_text decode_from encode char_bytes
constructs = refl

accepted : validate_construction digests document dual headers ≡ ok tt
unfolding validate_construction content_full
accepted = refl

within : all (fits 100) dual.units ≡ true
unfolding encode char_bytes
within = refl

vectorization_plan-due_example :
    vectorization_plan digests document dual headers 100
    ≡ ok (sort_units (due digests dual.units), [])
vectorization_plan-due_example =
    vectorization_plan-due digests document dual headers 100 accepted (omega arith) within

full : content_full "content_full.v1" headers clean ≡ ok (shown clean)
unfolding content_full
full = refl

content_full-body_example :
    (is_empty headers ≡ true → shown clean ≡ clean)
    × (is_empty headers ≡ false → after_empty_line (shown clean) ≡ clean)
content_full-body_example = content_full-body "content_full.v1" headers clean full
