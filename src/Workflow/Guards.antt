-- ===== src/Workflow/Guards.antt =====
-- `WorkflowGuardDefinition.validate_registered_value` of src/contracts/workflow/models.py.
use myknowledgebase.Prelude.{string_eq, String, List, [], ◌∷◌, contains, require}
use myknowledgebase.Workflow.Model.{
  PredicateType, registered_admission_result, registered_request_intent,
  registered_metadata_disposition, registered_markdown_selection,
  registered_admission_markdown_selection, representation_main_text_presence,
  registered_acquisition_mode, representation_media_family, registered_clean_strategy,
  GuardDefinition, guard_value_unregistered,
}
use myknowledgebase.Workflow.Shapes.{Check}

-- The table `allowed`.
pub allowed_values : PredicateType → List String
allowed_values registered_admission_result =
    "auto_admitted" ∷ "human_review_required" ∷ "rejected" ∷ []
allowed_values registered_request_intent =
    "intake.ingest" ∷ "intake.rebuild" ∷ "intake.update_metadata" ∷ "intake.deactivate"
    ∷ "intake.reactivate" ∷ "intake.delete" ∷ "index.rebuild" ∷ []
allowed_values registered_metadata_disposition = "no_change" ∷ []
allowed_values registered_markdown_selection = "present" ∷ []
allowed_values registered_admission_markdown_selection = "auto_admitted" ∷ []
allowed_values representation_main_text_presence = "present" ∷ "absent" ∷ "unknown" ∷ []
allowed_values registered_acquisition_mode = "static" ∷ "browser" ∷ "pdf" ∷ []
allowed_values representation_media_family = "text" ∷ "pdf" ∷ "image" ∷ "opaque" ∷ []
allowed_values registered_clean_strategy =
    "web.deterministic" ∷ "web.llm_rewrite" ∷ "web.browser_print_pdf" ∷ "pdf.text_layer"
    ∷ "pdf.document_understanding" ∷ "pdf.ocr" ∷ "doc.deterministic" ∷ "doc.document_understanding"
    ∷ "doc.ocr" ∷ "doc.vision" ∷ []

unfoldable pub guard_value : GuardDefinition → Check
unfolding allowed_values
guard_value g =
    require (contains (allowed_values g.predicate_type) g.expected_value) guard_value_unregistered
