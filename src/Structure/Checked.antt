-- ===== src/Structure/Checked.antt =====
-- `validate_structure` on what the adoption of a candidate made.
use myknowledgebase.Prelude.{
  ℕ, ◌≡◌, refl, ◌∙◌, String, Bool, true, false, ◌||◌, List, [], ◌∷◌, map, ok, arith, ◌==◌, nat_eq,
  string_eq, pair_eq, leb, all, contains, distinct, add, contains-add, fold_ok, Bool-cases, inl,
  inr, and_left, and_right, new_in, beq→eq, beq_refl,
}
use myknowledgebase.Text.{Text}
use myknowledgebase.Structure.Texts.{text_eq}
use myknowledgebase.Structure.Model.{Digests, RetrievalBlock}
use myknowledgebase.Structure.Names.{block_name, block_name_injective}
use myknowledgebase.Structure.Candidate.{LayeredBlock, block_key, granularities}
use myknowledgebase.Structure.Adopt.{leaf_id}
use myknowledgebase.Structure.Validate.{block_step}
use myknowledgebase.Structure.Anchored.{Anchored}
use myknowledgebase.Structure.Accepted.{AllAnchored, done, next}

abbrev pub names : List (ℕ × ℕ) → List Text
names keys = map (λ (p : ℕ × ℕ). block_name p.0 p.1) keys

abbrev pub all_small : List (ℕ × ℕ) → Bool
all_small keys = all (λ (p : ℕ × ℕ). leb p.0 2) keys

-- A key that is new has a name that is new.
names_new :
    (seen : List (ℕ × ℕ)) (g n : ℕ)
    → leb g 2 ≡ true
    → all_small seen ≡ true
    → contains seen (g, n) ≡ false
    → contains (names seen) (block_name g n) ≡ false
names_new [] g n small h new = refl
names_new ((a, b) ∷ seen) g n small h new = elim (Bool-cases (block_name a b == block_name g n)) [
  | inl same ↦
      let e =
        block_name_injective a g b n (ground (arith, h)) (ground (arith, small))
          (beq→eq _ _ same) in
      ground (arith, new, e.0, e.1)
  | inr other ↦ rw other (names_new seen g n small (ground arith) (ground arith))
]

all_new_cons :
    (k : ℕ × ℕ) (seen : List (ℕ × ℕ)) (raws : List LayeredBlock)
    → contains (map block_key raws) k ≡ false
    → all (new_in block_key seen) raws ≡ true
    → all (new_in block_key (k ∷ seen)) raws ≡ true
all_new_cons k seen [] h new = refl
all_new_cons k seen (raw ∷ raws) h new = ground (arith, all_new_cons k seen raws)

block_passes :
    (k : Digests) (clean : Text) (ids : List String) (raw : LayeredBlock) (block : RetrievalBlock)
    (seen : List Text) (gs : List ℕ)
    → Anchored k clean raw block
    → contains ids leaf_id ≡ true
    → leb raw.granularity 2 ≡ true
    → contains seen (block_name raw.granularity raw.block_id) ≡ false
    → block_step k clean ids (seen, gs) block
      ≡ ok (block_name raw.granularity raw.block_id ∷ seen, add raw.granularity gs)
unfolding block_step
block_passes k clean ids raw block seen gs a leaf small new =
    let from_start : leb 0 a.span.start_byte ≡ true = ground arith in
    rw
      (
        a.named,
        a.grained,
        a.refs,
        a.spans,
        new,
        small,
        leaf,
        from_start,
        a.forward,
        a.reads,
        a.digest,
        beq_refl block.original_text,
        beq_refl (k.text_digest block.original_text),
      )
      refl

pub blocks_pass :
    (k : Digests) (clean : Text) (ids : List String) {raws : List LayeredBlock}
    {blocks : List RetrievalBlock} (seen : List (ℕ × ℕ)) (gs : List ℕ)
    → AllAnchored k clean raws blocks
    → contains ids leaf_id ≡ true
    → all_small seen ≡ true
    → all (λ r. leb r.granularity 2) raws ≡ true
    → all (new_in block_key seen) raws ≡ true
    → distinct (map block_key raws) ≡ true
    → (st : List Text × List ℕ) × (fold_ok (block_step k clean ids) (names seen, gs) blocks ≡ ok st)
      × ((g : ℕ) → contains st.1 g ≡ (contains gs g || contains (granularities raws) g))
blocks_pass k clean ids seen gs done leaf s t new d = ((names seen, gs), refl, λ g. ground arith)
blocks_pass k clean ids seen gs (next {raw} {block} {raws} {blocks} a rest) leaf s t new d =
    let key = block_key raw in
    let ih =
      blocks_pass k clean ids (key ∷ seen) (add raw.granularity gs) rest leaf (ground (arith, s, t))
        (and_right (leb raw.granularity 2) _ t)
        (all_new_cons key seen raws (ground (arith, d)) (ground (arith, new)))
        (ground (arith, d)) in
    (
      ih.0,
      rw
          (block_passes k clean ids raw block (names seen) gs a leaf (and_left _ _ t)
            (names_new seen raw.granularity raw.block_id (and_left _ _ t) s (ground (arith, new))))
          ih.1,
      λ g. ih.2 g ∙ ground (arith, contains-add raw.granularity g gs),
    )
