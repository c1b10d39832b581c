-- ===== src/Construction/Construct.antt =====
-- `construct` of src/services/lsrag_compiler/construct.py and `validate_construction` of validate.py.
use Prim.Native.Char.{code}
use myknowledgebase.Prelude.{
  ℕ, String, Bool, true, false, not, ◌&&◌, ◌||◌, List, [], ◌∷◌, ◌++◌, map, Result, ok, err, ◌>>=◌,
  ◌>>◌, require, refuse, of_option, each, ◌==◌, string_eq, nat_eq, any, lookup, contains,
  if◌then◌else◌,
}
use myknowledgebase.Text.{Text}
use myknowledgebase.Structure.Texts.{text_eq}
use myknowledgebase.Structure.Model
use myknowledgebase.Structure.Model.{
  Digests, RetrievalBlock, StructureDocument, Projection, is_empty, is_blank,
}
use myknowledgebase.Structure.Validate.{validate_structure}
use myknowledgebase.Construction.Content.{
  Fault, binding_invalid, summary_incomplete, binding_digest, alignment_invalid, content_mismatch,
  g0_original_required, structure_invalid, content_full,
}
use myknowledgebase.Construction.Model.{
  Channel, ConstructionUnit, ConstructionDocument, DualChannelProjection,
}

-- The code points of an identifier.
abbrev pub codes : String → Text
codes String.[] = []
codes (String.◌∷◌ c s) = code c ∷ codes s

-- The digests that a construction adds to those of a structure.
pub record ConstructionDigests : Type 0 where
  pub base : Digests
  pub projection_digest : Projection → String
  pub construction_document_digest : ConstructionDocument → String
  pub metadata_digest : List (Text × Text) → String
  pub alignment_proof : List (Text × Text) → String
  pub channels_proof : List (Text × String × String) → String

-- An error of the check of the structure, as the caller of the construction sees it.
abbrev pub of_structure : Result Model.Fault (Unit {0}) → Result Fault (Unit {0})
of_structure (ok u) = ok u
of_structure (err e) = err (structure_invalid e)

abbrev pub coordinate_of : StructureDocument → Projection → RetrievalBlock → Text
coordinate_of structure projection block =
    codes structure.generation_artifact_uuid
    ++ (b':' ∷ (codes projection.generation_artifact_uuid ++ (b':' ∷ block.block_id)))

module _ (k : ConstructionDigests) where
  open k use {base}

  -- One unit of the construction, from the full texts of its channels.
  abbrev pub unit_of : Text → RetrievalBlock → Text → Text → Text → ConstructionUnit
  unit_of coordinate block summary original_full summary_full = record {
    unit_id = block.block_id;
    granularity = block.granularity;
    coordinate = coordinate;
    original = record {
      channel = "original";
      body = block.original_text;
      body_digest = block.original_digest;
      content = original_full;
      content_digest = base.text_digest original_full;
      grounds_coordinate = coordinate;
      reattach_status = if block.granularity == 0 then "native_full" else "reattached";
    };
    summary = record {
      channel = "summary";
      body = summary;
      body_digest = base.text_digest summary;
      content = summary_full;
      content_digest = base.text_digest summary_full;
      grounds_coordinate = coordinate;
      reattach_status = "not_applicable";
    };
  }

  -- The body of the loop over the blocks of the projection.
  abbrev pub construct_unit :
      StructureDocument
      → Projection
      → List (Text × Text)
      → String
      → List (Text × Text)
      → RetrievalBlock
      → Result Fault ConstructionUnit
  construct_unit structure projection headers recipe summaries block = do
    summary ← of_option (lookup summaries block.block_id) summary_incomplete
    refuse (is_blank summary) summary_incomplete
    original_full ← content_full recipe headers block.original_text
    summary_full ← content_full recipe headers summary
    ok (unit_of (coordinate_of structure projection block) block summary original_full summary_full)

  abbrev pub construct_units :
      StructureDocument
      → Projection
      → List (Text × Text)
      → String
      → List (Text × Text)
      → List RetrievalBlock
      → Result Fault (List ConstructionUnit)
  construct_units structure projection headers recipe summaries [] = ok []
  construct_units structure projection headers recipe summaries (block ∷ blocks) = do
    unit ← construct_unit structure projection headers recipe summaries block
    units ← construct_units structure projection headers recipe summaries blocks
    ok (unit ∷ units)

  -- `reattach_status in {"reattached", "native_full"}`
  abbrev pub is_reattached : Channel → Bool
  is_reattached c = (c.reattach_status == "reattached") || (c.reattach_status == "native_full")

  abbrev pub is_g0_original : ConstructionUnit → Bool
  is_g0_original u =
      (u.granularity == 0) && (not (is_blank u.original.body) && is_reattached u.original)

  abbrev pub validate_channel :
      List (Text × Text) → String → Text → Channel → Result Fault (Unit {0})
  validate_channel headers recipe coordinate c = do
    require
        (contains ("original" ∷ "summary" ∷ []) c.channel
          && ((c.grounds_coordinate == coordinate) && not (is_blank c.body)))
        summary_incomplete
    recomputed ← content_full recipe headers c.body
    require ((recomputed == c.content) && (c.content_digest == base.text_digest recomputed))
        content_mismatch

  -- The body of the loop over the units.
  abbrev pub validate_unit :
      List (Text × Text) → String → ConstructionUnit → Result Fault (Unit {0})
  validate_unit headers recipe u = do
    require
        ((u.original.channel == "original")
          && ((u.summary.channel == "summary") && not (is_empty u.coordinate)))
        alignment_invalid
    validate_channel headers recipe u.coordinate u.original
    validate_channel headers recipe u.coordinate u.summary

  abbrev pub unit_ids : List ConstructionUnit → List Text
  unit_ids units = map (λ u. u.unit_id) units

  abbrev pub same_ids : List Text → List Text → Bool
  same_ids [] [] = true
  same_ids (a ∷ as1) (b ∷ bs) = (a == b) && same_ids as1 bs
  same_ids _ _ = false

  -- `validate_construction`
  unfoldable pub validate_construction :
      ConstructionDocument → DualChannelProjection → List (Text × Text) → Result Fault (Unit {0})
  validate_construction document dual headers = do
    refuse
        (not (document.generation_artifact_uuid == dual.construction_generation_artifact_uuid)
          || (document.generation_artifact_uuid == dual.generation_artifact_uuid)
          || (document.structure_generation_artifact_uuid
              == document.projection_generation_artifact_uuid)
          || not (dual.construction_document_digest == k.construction_document_digest document))
        binding_digest
    require
        (not (is_empty document.units) && same_ids (unit_ids document.units) (unit_ids dual.units))
        alignment_invalid
    each (validate_unit headers document.content_full_recipe_version) dual.units
    require (any is_g0_original dual.units) g0_original_required

  abbrev pub document_of :
      StructureDocument
      → Projection
      → String
      → List (Text × Text)
      → String
      → List ConstructionUnit
      → String
      → ConstructionDocument
  document_of structure projection generation headers recipe units proof = record {
    generation_artifact_uuid = generation;
    structure_generation_artifact_uuid = structure.generation_artifact_uuid;
    projection_generation_artifact_uuid = projection.generation_artifact_uuid;
    structure_document_digest = base.structure_document_digest structure;
    projection_digest = k.projection_digest projection;
    units = units;
    metadata_projection_digest = k.metadata_digest headers;
    content_full_recipe_version = recipe;
    proof_digest = proof;
  }

  abbrev pub dual_of : String → ConstructionDocument → DualChannelProjection
  dual_of generation document = record {
    generation_artifact_uuid = generation;
    construction_generation_artifact_uuid = document.generation_artifact_uuid;
    construction_document_digest = k.construction_document_digest document;
    units = document.units;
    proof_digest = k.channels_proof (
        map (λ u. (u.unit_id, u.original.content_digest, u.summary.content_digest)) document.units);
  }

  -- `construct`, for given identities of the two artifacts.
  unfoldable pub construct :
      StructureDocument
      → Projection
      → Text
      → String
      → String
      → List (Text × Text)
      → List (Text × Text)
      → String
      → List ℕ
      → Result Fault (ConstructionDocument × DualChannelProjection)
  construct structure projection clean generation dual_generation summaries headers recipe
        required =
      do
        of_structure (validate_structure base structure projection clean required)
        refuse ((generation == "") || (dual_generation == "")) binding_invalid
        refuse (dual_generation == generation) binding_invalid
        units ← construct_units structure projection headers recipe summaries projection.blocks
        let document =
            document_of structure projection generation headers recipe units
              (k.alignment_proof (map (λ u. (u.unit_id, u.coordinate)) units))
        let dual = dual_of dual_generation document
        validate_construction document dual headers
        ok (document, dual)
