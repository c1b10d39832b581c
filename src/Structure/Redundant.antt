-- ===== src/Structure/Redundant.antt =====
-- That the check of the structure at the end of `_adopt_layered_json` rejects nothing.
use myknowledgebase.Prelude.{
  keep, all-mem, contains-mem, ℕ, ◌≡◌, refl, sym, ap, ◌∙◌, subst, String, true, false, some, List,
  [], ◌∷◌, map, Result, ok, err, ◌>>=◌, ◌>>◌, arith, length, ◌==◌, nat_eq, string_eq, pair_eq,
  option_eq, leb, all, ltb, contains, distinct, and_left, and_right, new_in, beq_refl, >>=-eq-ok,
  >>-eq-ok, require, require-eq-ok,
}
use myknowledgebase.Text.{Text, IsScalar, encode}
use myknowledgebase.Structure.Model.{
  Fault, Digests, TextSpan, StructureDocument, Projection, RetrievalBlock, is_blank,
  normalize_layered_text, granularity_set_mismatch, g0_required,
}
use myknowledgebase.Structure.Tree.{validate_tree, node_ids}
use myknowledgebase.Structure.Candidate.{
  LayeredBlock, block_key, granularities, declared_granularities, normalize_layered_candidate,
}
use myknowledgebase.Structure.Sorting.{sorted_by, contains-sorted_by, distinct-sorted_by}
use myknowledgebase.Structure.Adopt.{
  leaf_id, Bindings, layered_document, projected, project_candidate, adopt_layered_json,
}
use myknowledgebase.Structure.Validate.{
  leaf_spans, validate_coverage, validate_bindings, validate_projection, validate_structure,
  same_set,
}
use myknowledgebase.Structure.Anchored.{KeepsText, span_text_whole, encode_long}
use myknowledgebase.Structure.Accepted.{AllAnchored, fold_ok-AllAnchored, candidate_blocks-keys}
use myknowledgebase.Structure.Granularities.{
  declared_granularities-ok, profile_again, same_set_ext, AllAnchored-has_g0,
}
use myknowledgebase.Structure.Projected.{nothing_anchored, project_candidate-Projected}
use myknowledgebase.Structure.Checked.{blocks_pass}

tree_passes :
    (k : Digests) (g a : String) (clean : Text)
    → validate_tree (layered_document k g a clean) ≡ ok tt
unfolding validate_tree
tree_passes k g a clean = refl

whole_span : Text → TextSpan
whole_span clean = record { start_byte = 0; end_byte = length (encode clean) }

leaf_passes :
    (k : Digests) (g a : String) (clean : Text)
    → IsScalar clean
    → leaf_spans k clean (layered_document k g a clean).nodes ≡ ok (whole_span clean ∷ [])
unfolding whole_span
leaf_passes k g a clean h = rw (span_text_whole clean h, beq_refl (k.text_digest clean)) refl

coverage_passes :
    (clean : Text)
    → IsScalar clean
    → is_blank clean ≡ false
    → validate_coverage clean (whole_span clean ∷ []) ≡ ok tt
unfolding whole_span
coverage_passes clean h text =
    let long : ltb 0 (length (encode clean)) ≡ true = ground (arith, encode_long clean text) in
    rw (span_text_whole clean h, long, beq_refl (length (encode clean))) refl

-- What the candidate gives for the check of the projection.
pub record Ready (raws : List LayeredBlock) (declared : List ℕ) : Type 0 where
  pub small : all (λ r. leb r.granularity 2) raws ≡ true
  pub keys : distinct (map block_key raws) ≡ true
  pub declares : same_set (granularities raws) declared ≡ true
  pub with_g0 : contains (granularities raws) 0 ≡ true

all_new_nil : (raws : List LayeredBlock) → all (new_in block_key []) raws ≡ true
all_new_nil [] = refl
all_new_nil (raw ∷ raws) = all_new_nil raws

projection_passes :
    (k : Digests) (clean : Text) (ids : List String) (declared : List ℕ) {raws : List LayeredBlock}
    {blocks : List RetrievalBlock}
    → Ready raws declared
    → AllAnchored k clean raws blocks
    → contains ids leaf_id ≡ true
    → validate_projection k clean ids declared blocks ≡ ok tt
unfolding validate_projection
projection_passes k clean ids declared {raws} {blocks} r anchored leaf =
    let p = blocks_pass k clean ids [] [] anchored leaf refl r.small (all_new_nil raws) r.keys in
    rw
      (
        p.1,
        same_set_ext p.0.1 (granularities raws) declared declared p.2 (λ g. refl) r.declares,
        AllAnchored-has_g0 k clean anchored r.with_g0,
      )
      refl

-- The granularities of a candidate are those of the blocks that it came from.
keys_granularities :
    (xs ys : List LayeredBlock)
    → map block_key xs ≡ map block_key ys
    → granularities xs ≡ granularities ys
keys_granularities xs ys h =
    first_of_keys xs ∙ ap (map (λ (p : ℕ × ℕ). p.0)) h ∙ sym (first_of_keys ys)
  where
    first_of_keys :
        (zs : List LayeredBlock) → granularities zs ≡ map (λ (p : ℕ × ℕ). p.0) (map block_key zs)
    first_of_keys [] = refl
    first_of_keys (z ∷ zs) = rw (first_of_keys zs) refl

all_small_blocks :
    (raws : List LayeredBlock) (declared : List ℕ)
    → all (λ g. leb g 2) declared ≡ true
    → all (contains declared) (granularities raws) ≡ true
    → all (λ r. leb r.granularity 2) raws ≡ true
all_small_blocks [] declared s h = refl
all_small_blocks (raw ∷ raws) declared s h =
    let small =
      all-mem (λ g. leb g 2) declared s (contains-mem declared raw.granularity (and_left _ _ h)) in
    ground (
      arith,
      small,
      all_small_blocks raws declared s (and_right (contains declared raw.granularity) _ h),
    )

candidate-Ready :
    (k : Digests) (clean : Text) (raws : List LayeredBlock) (declared : List ℕ)
    {candidate : List LayeredBlock}
    → all (λ g. leb g 2) declared ≡ true
    → contains declared 0 ≡ true
    → normalize_layered_candidate k clean raws (some declared) ≡ ok candidate
    → Ready (sorted_by block_key candidate) declared
unfolding normalize_layered_candidate
candidate-Ready k clean raws declared {candidate} small zero h =
    let p = >>=-eq-ok (declared_granularities (some declared)) _ h in
    let q = >>-eq-ok (require (same_set (granularities raws) p.0) granularity_set_mismatch) _ p.2 in
    let r =
      >>-eq-ok
        (require (length (keep (λ (b : LayeredBlock). b.granularity == 0) raws) == 1) g0_required) _
        q.1 in
    let keys = candidate_blocks-keys k (normalize_layered_text k clean) [] raws r.1 in
    let again = declared_granularities-ok (some declared) p.1 in
    let sorts = contains-sorted_by block_key (λ (b : LayeredBlock). b.granularity) candidate in
    let same = keys_granularities candidate raws keys.0 in
    let set =
      same_set_ext (granularities (sorted_by block_key candidate)) (granularities raws) declared p.0
        (λ g. sorts g ∙ ap (λ xs. contains xs g) same)
        (λ g. ap (λ xs. contains xs g) (sym (profile_again declared zero)) ∙ sym (again.2 g))
        (require-eq-ok _ _ q.0) in
    record {
      small = all_small_blocks (sorted_by block_key candidate) declared small (and_left _ _ set);
      keys = distinct-sorted_by block_key candidate ∙ ap distinct keys.0 ∙ keys.2;
      declares = set;
      with_g0 =
          all-mem (contains (granularities (sorted_by block_key candidate))) declared
            (and_right _ _ set) (contains-mem declared 0 zero);
    }

-- What was anchored passes the whole check.
anchored-valid :
    (k : Digests) (b : Bindings) (clean : Text) (declared : List ℕ) (proof : String)
    {raws : List LayeredBlock} {blocks : List RetrievalBlock}
    → IsScalar clean
    → is_blank clean ≡ false
    → (b.projection_generation_artifact_uuid == b.generation_artifact_uuid) ≡ false
    → Ready raws declared
    → AllAnchored k clean raws blocks
    → validate_structure k
        (layered_document k b.generation_artifact_uuid b.clean_artifact_uuid clean)
        (projected k b clean blocks proof)
        clean
        declared
      ≡ ok tt
unfolding validate_structure validate_bindings
anchored-valid k b clean declared proof scalar text other ready anchored =
    let document = layered_document k b.generation_artifact_uuid b.clean_artifact_uuid clean in
    rw
      (
        beq_refl (k.text_digest clean),
        beq_refl b.generation_artifact_uuid,
        other,
        beq_refl (k.structure_document_digest document),
        tree_passes k b.generation_artifact_uuid b.clean_artifact_uuid clean,
        leaf_passes k b.generation_artifact_uuid b.clean_artifact_uuid clean scalar,
        coverage_passes clean scalar text,
      )
      (projection_passes k clean (node_ids document.nodes) declared ready anchored refl)

project_candidate-valid :
    (k : Digests) (b : Bindings) (clean : Text) (raws : List LayeredBlock)
    {r : StructureDocument × Projection × List ℕ}
    → KeepsText k
    → IsScalar clean
    → project_candidate k b clean raws ≡ ok r
    → validate_structure k r.0 r.1 clean r.2 ≡ ok tt
project_candidate-valid k b clean raws {r} keeps scalar h =
    let p = project_candidate-Projected k b clean raws h in
    let a = p.anchoring in
    let declared = declared_granularities-ok b.granularity_set p.declares in
    let anchored =
      fold_ok-AllAnchored k clean (sorted_by block_key p.candidate) nothing_anchored keeps scalar
        p.anchors in
    let blocks =
      subst (AllAnchored k clean (sorted_by block_key p.candidate)) (sym anchored.1) anchored.2 in
    subst
      (λ (x : StructureDocument × Projection × List ℕ).
        validate_structure k x.0 x.1 clean x.2 ≡ ok tt)
      p.result
      (anchored-valid k b clean p.declared (k.coverage_proof a.report p.declared) scalar p.text
        p.other (candidate-Ready k clean raws p.declared declared.0 declared.1 p.normal) blocks)

-- The structure and the projection, without the declared granularities.
abbrev pub without_profile :
    StructureDocument × Projection × List ℕ → Result Fault (StructureDocument × Projection)
without_profile r = ok (r.0, r.1)

-- The check of the structure at the end of an adoption rejects nothing: for a text of scalar values,
-- and if NFC keeps characters that are not space, the adoption gives what the bindings, the candidate
-- and its anchors give, and raises what these raise.
pub adopt_layered_json-project_candidate :
    (k : Digests) (b : Bindings) (clean_text : Text) (raws : List LayeredBlock)
    → KeepsText k
    → IsScalar (normalize_layered_text k clean_text)
    → adopt_layered_json k b clean_text raws
      ≡ (project_candidate k b (normalize_layered_text k clean_text) raws >>= without_profile)
unfolding adopt_layered_json
adopt_layered_json-project_candidate k b clean_text raws keeps scalar =
    checked (project_candidate k b clean raws)
      (λ r h. project_candidate-valid k b clean raws keeps scalar h)
  where
    clean : Text
    clean = normalize_layered_text k clean_text

    checked :
        (m : Result Fault (StructureDocument × Projection × List ℕ))
        → ((r : StructureDocument × Projection × List ℕ)
            → m ≡ ok r
            → validate_structure k r.0 r.1 clean r.2 ≡ ok tt)
        → (m >>= λ r. validate_structure k r.0 r.1 clean r.2 >> without_profile r)
          ≡ (m >>= without_profile)
    checked (err e) f = refl
    checked (ok r) f = rw (f r refl) refl
