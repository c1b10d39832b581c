-- ===== src/Text/Decoded.antt =====
-- `bytes.decode` on what `str.encode` made, and on bytes in two parts.
use myknowledgebase.Prelude.{
  inr, ◌∙◌, inl, Bool-cases, ℕ, ◌≡◌, refl, true, Option, none, some, [], ◌∷◌, ◌++◌, arith,
}
use myknowledgebase.Text.{
  is_idle, Text, Bytes, is_scalar, IsScalar, char_bytes, encode, Reading, read_byte, emit,
  decode_from, decode,
}

-- One character is read back from its bytes.
pub decode-char_bytes :
    (c : ℕ) (rest : Bytes)
    → is_scalar c ≡ true
    → decode (char_bytes c ++ rest) ≡ emit (some c) (decode rest)
unfolding char_bytes decode_from
decode-char_bytes c rest h = ground arith

abbrev pub append_to : Text → Option Text → Option Text
append_to t none = none
append_to t (some u) = some (t ++ u)

pub decode-encode : (t : Text) → IsScalar t → decode (encode t) ≡ some t
unfolding encode
decode-encode [] h = unfold decode_from in refl
decode-encode (c ∷ t) h =
    rw (decode-char_bytes c (encode t) (ground arith), decode-encode t (ground arith)) refl

decode_from-idle : (r : Reading) (bs : Bytes) → is_idle r ≡ true → decode_from r bs ≡ decode bs
unfolding decode_from
decode_from-idle r [] h = rw h refl
decode_from-idle r (b ∷ bs) h = rw (h, decode_from) refl

emit-append :
    (out : Option ℕ) (d e : Option Text) (u : Option Text) {t : Text}
    → ((v : Text) → d ≡ some v → e ≡ append_to v u)
    → emit out d ≡ some t
    → emit out e ≡ append_to t u
emit-append none d e u {t} f h = f t h
emit-append (some c) (some v) e none f h = rw (f v refl) refl
emit-append (some c) (some v) e (some u) f h = rw (f v refl) (ground arith)
emit-append (some c) none e u f h = cc

-- Decoding from a reading on is a homomorphism where the first part ends between characters.
pub decode_from-append :
    (r : Reading) (xs ys : Bytes) {t : Text}
    → decode_from r xs ≡ some t
    → decode_from r (xs ++ ys) ≡ append_to t (decode ys)
unfolding decode_from
decode_from-append r [] ys {t} h = elim (Bool-cases (is_idle r)) [
  | inl i ↦ decode_from-idle r ys i ∙ at_end (decode ys) (rw i at h)
  | inr n ↦ ended (rw n at h)
]
  where
    at_end : (o : Option Text) → some [] ≡ some t → o ≡ append_to t o
    at_end none e = refl
    at_end (some u) e = ground arith

    ended : {o : Option Text} → none ≡ some t → o ≡ append_to t (decode ys)
    ended e = cc
decode_from-append r (b ∷ xs) ys {t} h =
    from_read (λ next v e. decode_from-append next xs ys {t = v} e) (read_byte r b) h
  where
    from_read :
        ((next : Reading) (v : Text)
          → decode_from next xs ≡ some v
          → decode_from next (xs ++ ys) ≡ append_to v (decode ys))
        → (o : Option (Reading × Option ℕ))
        → ◌≡◌ {A = Option Text}
            (elim o [ none ↦ none | some (next, out) ↦ emit out (decode_from next xs) ])
            (some t)
        → ◌≡◌ {A = Option Text}
            (elim o [ none ↦ none | some (next, out) ↦ emit out (decode_from next (xs ++ ys)) ])
            (append_to t (decode ys))
    from_read ih none h = cc
    from_read ih (some (next, out)) h =
        emit-append out (decode_from next xs) (decode_from next (xs ++ ys)) (decode ys) (ih next) h
