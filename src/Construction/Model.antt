-- ===== src/Construction/Model.antt =====
-- The records of a construction in src/services/lsrag_compiler/models.py.
use myknowledgebase.Prelude.{ℕ, String, List}
use myknowledgebase.Text.{Text}

pub record Channel : Type 0 where
  pub channel : String
  pub body : Text
  pub body_digest : String
  pub content : Text
  pub content_digest : String
  pub grounds_coordinate : Text
  pub reattach_status : String

pub record ConstructionUnit : Type 0 where
  pub unit_id : Text
  pub granularity : ℕ
  pub coordinate : Text
  pub original : Channel
  pub summary : Channel

pub record ConstructionDocument : Type 0 where
  pub generation_artifact_uuid : String
  pub structure_generation_artifact_uuid : String
  pub projection_generation_artifact_uuid : String
  pub structure_document_digest : String
  pub projection_digest : String
  pub units : List ConstructionUnit
  pub metadata_projection_digest : String
  pub content_full_recipe_version : String
  pub proof_digest : String

pub record DualChannelProjection : Type 0 where
  pub generation_artifact_uuid : String
  pub construction_generation_artifact_uuid : String
  pub construction_document_digest : String
  pub units : List ConstructionUnit
  pub proof_digest : String

pub record VectorizationUnit : Type 0 where
  pub unit_id : Text
  pub granularity : ℕ
  pub channel : String
  pub coordinate : Text
  pub content : Text
  pub content_digest : String
