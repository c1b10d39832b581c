-- ===== src/Structure/Accepted.antt =====
-- That the check of the structure at the end of an adoption rejects nothing that was anchored.
use mathlib.Core.List.{append_assoc, append-nil}
use myknowledgebase.Prelude.{
  ok_injective, ℕ, ◌≡◌, refl, sym, ap, ◌∙◌, true, false, List, [], ◌∷◌, ◌++◌, map, ok, arith,
  nat_eq, string_eq, pair_eq, all, contains, distinct, add, fold_ok, >>=-eq-ok, new_in, all_new-add,
}
use myknowledgebase.Text.{Text, IsScalar}
use myknowledgebase.Structure.Texts.{text_eq}
use myknowledgebase.Structure.Model.{Digests, RetrievalBlock}
use myknowledgebase.Structure.Candidate.{LayeredBlock, block_key, candidate_step, candidate_blocks}
use myknowledgebase.Structure.Adopt.{Anchoring, anchor_step, retrieval_block}
use myknowledgebase.Structure.Anchored.{KeepsText, Anchored, anchor_step-ok}

-- The blocks of a projection, each from the block of the candidate at its place.
pub data AllAnchored (k : Digests) (clean : Text)
    : List LayeredBlock → List RetrievalBlock → Type 0 where
  done : AllAnchored k clean [] []
  next :
      {raw : LayeredBlock} {block : RetrievalBlock} {raws : List LayeredBlock}
      {blocks : List RetrievalBlock}
      → Anchored k clean raw block
      → AllAnchored k clean raws blocks
      → AllAnchored k clean (raw ∷ raws) (block ∷ blocks)

-- What the loop adds to the blocks that it starts from.
pub fold_ok-AllAnchored :
    (k : Digests) (clean : Text) (raws : List LayeredBlock) (a : Anchoring) {after : Anchoring}
    → KeepsText k
    → IsScalar clean
    → fold_ok (anchor_step k clean) a raws ≡ ok after
    → (added : List RetrievalBlock) × (after.blocks ≡ a.blocks ++ added)
      × AllAnchored k clean raws added
fold_ok-AllAnchored k clean [] a {after} keeps scalar h =
    ([], ap (λ (x : Anchoring). x.blocks) (sym (ok_injective h)) ∙ sym (append-nil a.blocks), done)
fold_ok-AllAnchored k clean (raw ∷ raws) a keeps scalar h =
    let r = >>=-eq-ok (anchor_step k clean a raw) (λ x. fold_ok (anchor_step k clean) x raws) h in
    let step = anchor_step-ok k clean a raw keeps scalar r.1 in
    let rest = fold_ok-AllAnchored k clean raws r.0 keeps scalar r.2 in
    let block = retrieval_block k clean raw step.0 step.1 in
    (
      block ∷ rest.0,
      rest.1 ∙ ap (λ x. x ++ rest.0) step.4 ∙ append_assoc a.blocks (block ∷ []) rest.0,
      next step.5 rest.2,
    )

candidate_step-key :
    (k : Digests) (clean : Text) (seen : List (ℕ × ℕ)) (raw : LayeredBlock) {block : LayeredBlock}
    → candidate_step k clean seen raw ≡ ok block
    → (block_key block ≡ block_key raw) × (contains seen (block_key raw) ≡ false)
candidate_step-key k clean seen raw h = ground arith

-- The keys of a candidate are distinct, and those of the blocks that it came from.
pub candidate_blocks-keys :
    (k : Digests) (clean : Text) (seen : List (ℕ × ℕ)) (raws : List LayeredBlock)
    {blocks : List LayeredBlock}
    → candidate_blocks k clean seen raws ≡ ok blocks
    → (map block_key blocks ≡ map block_key raws)
      × (all (new_in block_key seen) raws ≡ true)
      × (distinct (map block_key raws) ≡ true)
unfolding candidate_blocks
candidate_blocks-keys k clean seen [] h = (ap (map block_key) (sym (ok_injective h)), refl, refl)
candidate_blocks-keys k clean seen (raw ∷ raws) h =
    let p = >>=-eq-ok (candidate_step k clean seen raw) _ h in
    let q = >>=-eq-ok (candidate_blocks k clean (add (block_key raw) seen) raws) _ p.2 in
    let ih = candidate_blocks-keys k clean (add (block_key raw) seen) raws q.1 in
    let new = all_new-add block_key (block_key raw) seen raws ih.1 in
    let s = candidate_step-key k clean seen raw p.1 in
    (
      ap (map block_key) (sym (ok_injective q.2)) ∙ rw (s.0, ih.0) refl,
      ground (arith, s.1, new.0),
      ground (arith, new.1, ih.2),
    )
