-- ===== src/Structure/Projected.antt =====
-- What an adoption that raises nothing has found before the check of the structure.
use myknowledgebase.Prelude.{
  ℕ, ◌≡◌, false, not, ◌&&◌, ◌||◌, some, List, [], ◌==◌, string_eq, option_eq, is_some, ok,
  >>=-eq-ok, >>-eq-ok, refuse, refuse-eq-ok, ok_injective, fold_ok,
}
use myknowledgebase.Text.{Text}
use myknowledgebase.Structure.Model.{
  Digests, StructureDocument, Projection, is_blank, kernel_empty, binding_invalid,
  binding_clean_digest,
}
use myknowledgebase.Structure.Candidate.{
  LayeredBlock, block_key, declared_granularities, normalize_layered_candidate,
}
use myknowledgebase.Structure.Sorting.{sorted_by}
use myknowledgebase.Structure.Adopt.{
  Bindings, Anchoring, anchor_step, layered_document, projected, project_candidate,
}

abbrev pub nothing_anchored : Anchoring
nothing_anchored = record { search_from = []; blocks = []; report = [] }

pub record Projected (k : Digests) (b : Bindings) (clean : Text) (raws : List LayeredBlock)
    (r : StructureDocument × Projection × List ℕ) : Type 0 where
  pub text : is_blank clean ≡ false
  pub other : (b.projection_generation_artifact_uuid == b.generation_artifact_uuid) ≡ false
  pub declared : List ℕ
  pub declares : declared_granularities b.granularity_set ≡ ok declared
  pub candidate : List LayeredBlock
  pub normal : normalize_layered_candidate k clean raws (some declared) ≡ ok candidate
  pub anchoring : Anchoring
  pub anchors :
      fold_ok (anchor_step k clean) nothing_anchored (sorted_by block_key candidate) ≡ ok anchoring
  pub result :
      (
        layered_document k b.generation_artifact_uuid b.clean_artifact_uuid clean,
        projected k b clean anchoring.blocks (k.coverage_proof anchoring.report declared),
        declared,
      )
      ≡ r

pub project_candidate-Projected :
    (k : Digests) (b : Bindings) (clean : Text) (raws : List LayeredBlock)
    {r : StructureDocument × Projection × List ℕ}
    → project_candidate k b clean raws ≡ ok r
    → Projected k b clean raws r
unfolding project_candidate
project_candidate-Projected k b clean raws h =
    let p = >>-eq-ok (refuse (is_blank clean) kernel_empty) _ h in
    let q =
      >>-eq-ok
        (refuse ((b.generation_artifact_uuid == "") || (b.clean_artifact_uuid == ""))
          binding_invalid)
        _ p.1 in
    let s =
      >>-eq-ok
        (refuse (b.projection_generation_artifact_uuid == b.generation_artifact_uuid)
          binding_invalid)
        _ q.1 in
    let d = >>=-eq-ok (declared_granularities b.granularity_set) _ s.1 in
    let e =
      >>-eq-ok
        (refuse (is_some b.clean_digest && not (b.clean_digest == some (k.text_digest clean)))
          binding_clean_digest)
        _ d.2 in
    let c = >>=-eq-ok (normalize_layered_candidate k clean raws (some d.0)) _ e.1 in
    let a =
      >>=-eq-ok (fold_ok (anchor_step k clean) nothing_anchored (sorted_by block_key c.0)) _ c.2 in
    record {
      text = refuse-eq-ok _ _ p.0;
      other = refuse-eq-ok _ _ s.0;
      declared = d.0;
      declares = d.1;
      candidate = c.0;
      normal = c.1;
      anchoring = a.0;
      anchors = a.1;
      result = ok_injective a.2;
    }
