-- ===== src/Structure/Candidate.antt =====
-- The candidate of a layered structure, in src/services/lsrag_compiler/adopt.py:
-- `declared_granularities` and `normalize_layered_candidate`. A block is what the shape check
-- `validate_layered_content` gives for a candidate whose summaries are empty.
use myknowledgebase.Prelude.{
  ℕ, Bool, false, not, ◌&&◌, Option, none, some, List, [], ◌∷◌, map, Result, ok, err, ◌>>=◌, ◌>>◌,
  require, refuse, ◌==◌, nat_eq, pair_eq, leb, all, keep, length, contains, add, if◌then◌else◌,
}
use myknowledgebase.Text.{Text}
use myknowledgebase.Structure.Model.{
  Fault, Digests, profile_invalid, granularity_set_mismatch, g0_required, schema_invalid,
  anchor_missing, is_blank, normalize_layered_text,
}
use myknowledgebase.Structure.Tree.{sorted}
use myknowledgebase.Structure.Validate.{same_set}

pub record LayeredBlock : Type 0 where
  pub block_id : ℕ
  pub granularity : ℕ
  pub title : Option Text
  pub body : Option Text

abbrev pub block_key : LayeredBlock → ℕ × ℕ
block_key b = (b.granularity, b.block_id)

abbrev pub as_set : List ℕ → List ℕ
as_set [] = []
as_set (x ∷ xs) = add x (as_set xs)

-- `granularity_set or (0, 1, 2)`
abbrev pub profile_of : Option (List ℕ) → List ℕ
profile_of (some (g ∷ gs)) = g ∷ gs
profile_of _ = 0 ∷ 1 ∷ 2 ∷ []

unfoldable pub declared_granularities : Option (List ℕ) → Result Fault (List ℕ)
declared_granularities granularity_set = do
  let declared = sorted (as_set (profile_of granularity_set))
  require (all (λ g. leb g 2) declared && contains declared 0) profile_invalid
  ok declared

-- `isinstance(body, str) and body.strip()`
abbrev pub has_text : Option Text → Bool
has_text none = false
has_text (some t) = not (is_blank t)

abbrev pub normalized : Digests → Option Text → Option Text
normalized k none = none
normalized k (some t) = some (normalize_layered_text k t)

abbrev pub normalized_block : Digests → LayeredBlock → LayeredBlock
normalized_block k b = record b { title = normalized k b.title; body = normalized k b.body }

-- The body of the loop over the blocks, with `seen_keys` and the blocks so far.
abbrev pub candidate_step : Digests → Text → List (ℕ × ℕ) → LayeredBlock → Result Fault LayeredBlock
candidate_step k clean seen_keys raw = do
  refuse (contains seen_keys (block_key raw)) schema_invalid
  let block = normalized_block k raw
  if (block.granularity == 0) && not (has_text block.body)
      then ok (record block { body = some clean })
      else if has_text block.body
      then ok block
      else err anchor_missing

unfoldable pub candidate_blocks :
    Digests → Text → List (ℕ × ℕ) → List LayeredBlock → Result Fault (List LayeredBlock)
candidate_blocks k clean seen_keys [] = ok []
candidate_blocks k clean seen_keys (raw ∷ raws) = do
  block ← candidate_step k clean seen_keys raw
  blocks ← candidate_blocks k clean (add (block_key raw) seen_keys) raws
  ok (block ∷ blocks)

abbrev pub granularities : List LayeredBlock → List ℕ
granularities blocks = map (λ b. b.granularity) blocks

-- `normalize_layered_candidate`
unfoldable pub normalize_layered_candidate :
    Digests → Text → List LayeredBlock → Option (List ℕ) → Result Fault (List LayeredBlock)
normalize_layered_candidate k clean_text raw_blocks granularity_set = do
  let clean = normalize_layered_text k clean_text
  declared ← declared_granularities granularity_set
  require (same_set (granularities raw_blocks) declared) granularity_set_mismatch
  require (length (keep (λ b. b.granularity == 0) raw_blocks) == 1) g0_required
  candidate_blocks k clean [] raw_blocks
