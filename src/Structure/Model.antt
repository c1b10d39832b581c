-- ===== src/Structure/Model.antt =====
-- The records of src/services/lsrag_compiler/models.py for a structure document and its projection,
-- with `_span_text` and `_byte_offset`, and the errors that the compiler raises. A digest is a value
-- that the code compares only for equality, so the digest functions are parameters. An offset is a
-- number that is not negative.
use myknowledgebase.Prelude.{
  ℕ, String, Bool, true, false, ◌&&◌, ◌||◌, Option, List, [], ◌∷◌, Result, err, ltb, leb, nat_beq,
  all, length, if◌then◌else◌, of_option,
}
use myknowledgebase.Text.{Text, encode, decode}
use myknowledgebase.Text.Slices.{take, slice}

pub data Fault : Type 0 where
  kernel_empty binding_invalid binding_clean_digest binding_cross_generation binding_digest : Fault
  tree_root tree_duplicate_node node_kind_invalid order_invalid tree_parent tree_depth : Fault
  anchor_missing anchor_digest anchor_outside anchor_splits coverage_invalid : Fault
  projection_invalid projection_node projection_order projection_original : Fault
  projection_g0_required profile_invalid granularity_set_mismatch g0_required : Fault
  schema_invalid alignment_invalid original_mutation summary_incomplete : Fault

pub record TextSpan : Type 0 where
  pub start_byte : ℕ
  pub end_byte : ℕ

pub record StructureNode : Type 0 where
  pub node_id : String
  pub node_kind : String
  pub parent_node_id : Option String
  pub sibling_ordinal : ℕ
  pub depth : ℕ
  pub reading_ordinal : ℕ
  pub content_role : String
  pub source_anchor : Option TextSpan
  pub content_digest : Option String
  pub subtree_digest : String

pub record StructureDocument : Type 0 where
  pub generation_artifact_uuid : String
  pub clean_artifact_uuid : String
  pub clean_digest : String
  pub document_root_node_id : String
  pub nodes : List StructureNode
  pub proof_digest : String

pub record RetrievalBlock : Type 0 where
  pub block_id : Text
  pub granularity : ℕ
  pub source_node_refs : List String
  pub ordered_source_spans : List TextSpan
  pub original_text : Text
  pub original_digest : String

pub record Projection : Type 0 where
  pub generation_artifact_uuid : String
  pub structure_generation_artifact_uuid : String
  pub structure_document_digest : String
  pub blocks : List RetrievalBlock
  pub proof_digest : String

-- One entry of the report on the anchors.
pub record Anchor : Type 0 where
  pub block_id : ℕ
  pub projection_block_id : Text
  pub granularity : ℕ
  pub start_byte : ℕ
  pub end_byte : ℕ
  pub occurrence_count : ℕ

-- The digests, and the normal form NFC of the standard library.
pub record Digests : Type 0 where
  pub text_digest : Text → String
  pub structure_document_digest : StructureDocument → String
  pub children_digest : List String → String
  pub tree_proof : ℕ → String
  pub coverage_proof : List Anchor → List ℕ → String
  pub nfc : Text → Text

abbrev pub is_empty {ℓ} : {A : Type ℓ} → List A → Bool
is_empty [] = true
is_empty (x ∷ xs) = false

-- `str.isspace` of one character
abbrev pub is_space : ℕ → Bool
is_space c =
    (leb 9 c && leb c 13)
    || (leb 28 c && leb c 32)
    || nat_beq c 0x85
    || nat_beq c 0xA0
    || nat_beq c 0x1680
    || (leb 0x2000 c && leb c 0x200A)
    || nat_beq c 0x2028
    || nat_beq c 0x2029
    || nat_beq c 0x202F
    || nat_beq c 0x205F
    || nat_beq c 0x3000

-- `not value.strip()`
abbrev pub is_blank : Text → Bool
is_blank t = all is_space t

-- `value.replace("\r\n", "\n").replace("\r", "\n")`: what is replaced first leaves no pair behind.
abbrev pub pairs_replaced : Text → Text
pairs_replaced [] = []
pairs_replaced (c ∷ []) = c ∷ []
pairs_replaced (c ∷ (d ∷ t)) =
    let rest = pairs_replaced t in
    let next = pairs_replaced (d ∷ t) in
    if nat_beq c 13 && nat_beq d 10 then 10 ∷ rest else c ∷ next

abbrev pub returns_replaced : Text → Text
returns_replaced [] = []
returns_replaced (c ∷ t) = (if nat_beq c 13 then 10 else c) ∷ returns_replaced t

-- `normalize_layered_text`
unfoldable pub normalize_layered_text : Digests → Text → Text
normalize_layered_text k t = k.nfc (returns_replaced (pairs_replaced t))

-- `_span_text`
unfoldable pub span_text : Text → ℕ → ℕ → Result Fault Text
span_text value start finish =
    if ltb finish start || ltb (length (encode value)) finish
    then err anchor_outside
    else of_option (decode (slice start finish (encode value))) anchor_splits

-- `_byte_offset`
unfoldable pub byte_offset : Text → ℕ → ℕ
byte_offset value char_offset = length (encode (take char_offset value))
