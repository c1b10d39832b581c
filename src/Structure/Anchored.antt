-- ===== src/Structure/Anchored.antt =====
-- Where `str.find` anchors the body of a block, and what `_span_text` reads back there.
use mathlib.Core.List.{append_assoc, append-nil}
use myknowledgebase.Prelude.{
  ok_injective, lookup, nat_beq, is_some, subst, ◌||◌, ℕ, zero, suc, ◌+◌, ◌≤◌, ◌<◌, ◌≡◌, refl, sym,
  ap, ◌∙◌, true, false, not, ◌&&◌, Option, none, some, List, [], ◌∷◌, ◌++◌, ok, arith, length,
  length-append, ◌==◌, nat_eq, leb, all, ltb, Bool-cases, inl, inr, and_left, and_right,
  Option-cases, >>=-eq-ok, >>-eq-ok, require-eq-ok, of_option-eq-ok, require, refuse, of_option,
}
use myknowledgebase.Text.{Text, is_scalar, IsScalar, encode}
use myknowledgebase.Text.Slices.{
  encode_some, length-encode-append, take, drop, take-append, slice-encode, take-drop,
}
use myknowledgebase.Text.Decoded.{decode-encode}
use myknowledgebase.Structure.Model.{
  anchor_missing, TextSpan, RetrievalBlock, Digests, is_empty, is_blank, normalize_layered_text,
  pairs_replaced, returns_replaced, span_text, byte_offset,
}
use myknowledgebase.Structure.Texts.{text_eq}
use myknowledgebase.Structure.Names.{block_name}
use myknowledgebase.Structure.Candidate.{LayeredBlock, has_text}
use myknowledgebase.Structure.Adopt.{
  at_least_one, or_zero, starts_with, find, find_from, leaf_id, Anchoring, anchor_step,
  retrieval_block,
}

starts_with-append :
    (body t : Text) → starts_with body t ≡ true → (after : Text) × (t ≡ body ++ after)
starts_with-append [] t h = (t, refl)
starts_with-append (c ∷ s) [] h = cc
starts_with-append (c ∷ s) (d ∷ t) h =
    let r = starts_with-append s t (and_right (c == d) (starts_with s t) h) in
    let e : c ≡ d = ground (arith, and_left (c == d) (starts_with s t) h) in (r.0, rw (e, r.1) refl)

-- The text around a body.
pub record Around (clean body : Text) (first : ℕ) : Type 0 where
  pub before : Text
  pub after : Text
  pub split : clean ≡ (before ++ body) ++ after
  pub starts : length before ≡ first

find-Around : (body t : Text) {i : ℕ} → find body t ≡ some i → Around t body i
unfolding find
find-Around [] [] h = record { before = []; after = []; split = refl; starts = cc }
find-Around (b ∷ body) [] h = cc
find-Around body (c ∷ t) {i} h = elim (Bool-cases (starts_with body (c ∷ t))) [
  | inl here ↦
      let r = starts_with-append body (c ∷ t) here in
      record { before = []; after = r.0; split = r.1; starts = cc (rw here at h) }
  | inr on ↦ elim (Option-cases (find body t)) [
    | inl missing ↦ cc (rw (on, missing) at h)
    | inr (j, found) ↦
        let r = find-Around body t found in
        let e : 1 + j ≡ i = cc (rw (on, found) at h) in
        record {
          before = c ∷ r.before;
          after = r.after;
          split = ap (◌∷◌ c) r.split;
          starts = omega (arith, r.starts, e);
        }
  ]
]

length-take {ℓ} : {A : Type ℓ} (n : ℕ) (xs : List A) → n ≤ length xs → length (take n xs) ≡ n
length-take zero xs h = refl
length-take (suc n) [] h = absurd (omega arith)
length-take (suc n) (x ∷ xs) h = omega (arith, length-take n xs (omega arith))

pub find_from-Around :
    (body t : Text) (start : ℕ) {i : ℕ}
    → find_from body t start ≡ some i
    → Around t body i × (start ≤ i)
find_from-Around body t start {i} h = elim (Bool-cases (leb start (length t))) [
  | inr past ↦ cc (rw past at h)
  | inl within ↦ elim (Option-cases (find body (drop start t))) [
    | inl missing ↦ cc (rw (within, missing) at h)
    | inr (j, found) ↦
        let r = find-Around body (drop start t) found in
        let e : start + j ≡ i = cc (rw (within, found) at h) in
        let n = length-take start t (ground arith) in
        (
          record {
            before = take start t ++ r.before;
            after = r.after;
            split =
                sym (take-drop start t)
                ∙ ap (λ x. take start t ++ x) r.split
                ∙ sym (append_assoc (take start t) (r.before ++ body) r.after)
                ∙ ap (λ x. x ++ r.after) (sym (append_assoc (take start t) r.before body));
            starts = length-append (take start t) r.before ∙ omega (arith, n, r.starts, e);
          },
          omega arith,
        )
  ]
]

span_text-split :
    (before middle after : Text)
    → IsScalar middle
    → span_text
        ((before ++ middle) ++ after)
        (length (encode before))
        (length (encode (before ++ middle)))
      ≡ ok middle
unfolding span_text
span_text-split before middle after h =
    let inside : (ltb (length (encode (before ++ middle))) (length (encode before))
          || ltb (length (encode ((before ++ middle) ++ after)))
              (length (encode (before ++ middle))))
        ≡ false =
      ground (
        arith,
        length-encode-append before middle,
        length-encode-append (before ++ middle) after,
      ) in
    rw (inside, slice-encode before middle after, decode-encode middle h) refl

encode_longer : (t : Text) → is_empty t ≡ false → 0 < length (encode t)
encode_longer [] h = cc
encode_longer (c ∷ t) h = encode_some c t

module _ (clean body : Text) (first : ℕ) (a : Around clean body first) where
  regrouped : clean ≡ a.before ++ (body ++ a.after)
  regrouped = a.split ∙ append_assoc a.before body a.after

  offset_before : byte_offset clean first ≡ length (encode a.before)
  unfolding byte_offset
  offset_before =
      rw (sym a.starts, regrouped)
        (ap (λ t. length (encode t)) (take-append a.before (body ++ a.after)))

  offset_after : byte_offset clean (first + length body) ≡ length (encode (a.before ++ body))
  unfolding byte_offset
  offset_after =
      let n : first + length body ≡ length (a.before ++ body) =
        omega (arith, a.starts, length-append a.before body) in
      rw (n, a.split) (ap (λ t. length (encode t)) (take-append (a.before ++ body) a.after))

  body-IsScalar : IsScalar clean → IsScalar body
  body-IsScalar h = all_middle a.before body a.after (rw regrouped at h)
    where
      all_middle : (x y z : Text) → all is_scalar (x ++ (y ++ z)) ≡ true → all is_scalar y ≡ true
      all_middle (c ∷ x) y z p = all_middle x y z (and_right (is_scalar c) _ p)
      all_middle [] [] z p = refl
      all_middle [] (c ∷ y) z p = ground (
        arith,
        all_middle [] y z (and_right (is_scalar c) (all is_scalar (y ++ z)) p),
        and_left (is_scalar c) (all is_scalar (y ++ z)) p,
      )

  -- The text between the offsets of the body is the body.
  pub span_text-byte_offset :
      IsScalar clean
      → span_text clean (byte_offset clean first) (byte_offset clean (first + length body))
        ≡ ok body
  span_text-byte_offset h =
      rw (offset_before, offset_after)
        (ap (λ t. span_text t (length (encode a.before)) (length (encode (a.before ++ body))))
            a.split
          ∙ span_text-split a.before body a.after (body-IsScalar h))

  pub byte_offset_lt :
      is_empty body ≡ false
      → ltb (byte_offset clean first) (byte_offset clean (first + length body)) ≡ true
  byte_offset_lt h =
      rw (offset_before, offset_after)
        (ground (arith, length-encode-append a.before body, encode_longer body h))

-- What the standard library says of NFC: no text with a character that is not space loses it.
abbrev pub KeepsText : Digests → Type 0
KeepsText k = (t : Text) → is_blank t ≡ false → is_blank (k.nfc t) ≡ false

blank_pairs : (t : Text) → is_blank (pairs_replaced t) ≡ is_blank t
blank_pairs [] = refl
blank_pairs (c ∷ []) = refl
blank_pairs (c ∷ (d ∷ t)) = elim (Bool-cases (nat_beq c 13 && nat_beq d 10)) [
  | inl pair ↦
      let e : c ≡ 13 = ground (arith, pair) in
      let f : d ≡ 10 = ground (arith, pair) in rw (pair, blank_pairs t, e, f) refl
  | inr other ↦ rw (other, blank_pairs (d ∷ t)) refl
]

blank_returns : (t : Text) → is_blank (returns_replaced t) ≡ is_blank t
blank_returns [] = refl
blank_returns (c ∷ t) = ground (arith, blank_returns t)

normalize-text :
    (k : Digests) (t : Text)
    → KeepsText k
    → is_blank t ≡ false
    → is_blank (normalize_layered_text k t) ≡ false
unfolding normalize_layered_text
normalize-text k t keeps h =
    keeps (returns_replaced (pairs_replaced t))
      (blank_returns (pairs_replaced t) ∙ blank_pairs t ∙ h)

-- A block of a projection that an adopted block of the candidate became.
pub record Anchored (k : Digests) (clean : Text) (raw : LayeredBlock) (block : RetrievalBlock)
    : Type 0 where
  pub named : block.block_id ≡ block_name raw.granularity raw.block_id
  pub grained : block.granularity ≡ raw.granularity
  pub refs : block.source_node_refs ≡ leaf_id ∷ []
  pub span : TextSpan
  pub spans : block.ordered_source_spans ≡ span ∷ []
  pub forward : ltb span.start_byte span.end_byte ≡ true
  pub reads : span_text clean span.start_byte span.end_byte ≡ ok block.original_text
  pub digest : block.original_digest ≡ k.text_digest block.original_text
  pub worded : is_blank block.original_text ≡ false

nonempty : (t : Text) → is_blank t ≡ false → is_empty t ≡ false
nonempty [] h = cc
nonempty (c ∷ t) h = refl

retrieval_block-Anchored :
    (k : Digests) (clean body : Text) (raw : LayeredBlock) (first : ℕ)
    → IsScalar clean
    → is_blank body ≡ false
    → Around clean body first
    → Anchored k clean raw (retrieval_block k clean raw body first)
retrieval_block-Anchored k clean body raw first scalar worded a = record {
  named = refl;
  grained = refl;
  refs = refl;
  span = record {
    start_byte = byte_offset clean first;
    end_byte = byte_offset clean (first + length body);
  };
  spans = refl;
  forward = byte_offset_lt clean body first a (nonempty body worded);
  reads = span_text-byte_offset clean body first a scalar;
  digest = refl;
  worded = worded;
}

has_text_worded : (o : Option Text) {t : Text} → o ≡ some t → has_text o ≡ true → is_blank t ≡ false
has_text_worded none e h = cc
has_text_worded (some u) {t} e h =
    let same : u ≡ t = cc in subst (λ x. is_blank x ≡ false) same (ground (arith, h))

-- What a step of the loop adds.
pub anchor_step-ok :
    (k : Digests) (clean : Text) (a : Anchoring) (raw : LayeredBlock) {next : Anchoring}
    → KeepsText k
    → IsScalar clean
    → anchor_step k clean a raw ≡ ok next
    → (body : Text) × (first : ℕ) × (or_zero (lookup a.search_from raw.granularity) ≤ first)
      × (next.search_from ≡ (raw.granularity, first + at_least_one (length body)) ∷ a.search_from)
      × (next.blocks ≡ a.blocks ++ retrieval_block k clean raw body first ∷ [])
      × Anchored k clean raw (retrieval_block k clean raw body first)
unfolding anchor_step
anchor_step-ok k clean a raw {next} keeps scalar h =
    let p = >>-eq-ok (require (has_text raw.body) anchor_missing) _ h in
    let q = >>=-eq-ok (of_option raw.body anchor_missing) _ p.1 in
    let body = normalize_layered_text k q.0 in
    let r =
      >>-eq-ok (refuse ((raw.granularity == 0) && not (body == clean)) anchor_missing) _ q.2 in
    let s = >>-eq-ok (require (is_some (find body clean)) anchor_missing) _ r.1 in
    let t =
      >>=-eq-ok
        (of_option (find_from body clean (or_zero (lookup a.search_from raw.granularity)))
          anchor_missing)
        _ s.1 in
    let around = find_from-Around body clean _ (of_option-eq-ok _ _ t.1) in
    let worded =
      normalize-text k q.0 keeps
        (has_text_worded raw.body (of_option-eq-ok _ _ q.1) (require-eq-ok _ _ p.0)) in
    let e = ok_injective t.2 in
    (
      body,
      t.0,
      around.1,
      ap (λ (n : Anchoring). n.search_from) (sym e),
      ap (λ (n : Anchoring). n.blocks) (sym e),
      retrieval_block-Anchored k clean body raw t.0 scalar worded around.0,
    )

pub span_text_whole :
    (clean : Text) → IsScalar clean → span_text clean 0 (length (encode clean)) ≡ ok clean
span_text_whole clean h =
    let e = rw append-nil at (span_text-split [] clean [] h) in unfold encode in e

pub encode_long : (t : Text) → is_blank t ≡ false → 0 < length (encode t)
encode_long t h = encode_longer t (nonempty t h)
