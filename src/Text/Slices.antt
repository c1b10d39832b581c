-- ===== src/Text/Slices.antt =====
-- Slices of lists, and what slices of the bytes of a text are at the offsets of its characters.
use myknowledgebase.Prelude.{
  ◌<◌, sym, ◌∙◌, ℕ, zero, suc, ◌+◌, ◌-◌, ◌≡◌, refl, ap, List, [], ◌∷◌, ◌++◌, arith, length,
  length-append,
}
use mathlib.Core.List.{append_assoc}
use myknowledgebase.Text.{Text, char_bytes, encode}

module _ {ℓ} {A : Type ℓ} where
  abbrev pub take : ℕ → List A → List A
  take zero xs = []
  take (suc n) [] = []
  take (suc n) (x ∷ xs) = x ∷ take n xs

  abbrev pub drop : ℕ → List A → List A
  drop zero xs = xs
  drop (suc n) [] = []
  drop (suc n) (x ∷ xs) = drop n xs

  -- `xs[start:end]`, for offsets that are not negative
  abbrev pub slice : ℕ → ℕ → List A → List A
  slice start finish xs = take (finish - start) (drop start xs)

  pub take-append : (xs ys : List A) → take (length xs) (xs ++ ys) ≡ xs
  take-append [] ys = refl
  take-append (x ∷ xs) ys = ap (◌∷◌ x) (take-append xs ys)

  pub drop-append : (xs ys : List A) → drop (length xs) (xs ++ ys) ≡ ys
  drop-append [] ys = refl
  drop-append (x ∷ xs) ys = drop-append xs ys

  pub drop-append_add : (xs ys : List A) (n : ℕ) → drop (length xs + n) (xs ++ ys) ≡ drop n ys
  drop-append_add [] ys n = rw (zero_add n) refl
    where
      zero_add : (k : ℕ) → 0 + k ≡ k
      zero_add k = omega arith
  drop-append_add (x ∷ xs) ys n = rw (suc_add (length xs) n) (drop-append_add xs ys n)
    where
      suc_add : (a b : ℕ) → suc a + b ≡ suc (a + b)
      suc_add a b = omega arith

  pub take-drop : (n : ℕ) (xs : List A) → take n xs ++ drop n xs ≡ xs
  take-drop zero xs = refl
  take-drop (suc n) [] = refl
  take-drop (suc n) (x ∷ xs) = ap (◌∷◌ x) (take-drop n xs)

  pub drop-drop : (a n : ℕ) (xs : List A) → drop (a + n) xs ≡ drop n (drop a xs)
  drop-drop zero n xs = rw (zero_add n) refl
    where
      zero_add : (k : ℕ) → 0 + k ≡ k
      zero_add k = omega arith
  drop-drop (suc a) n [] = rw (suc_add a n) (sym (drop_nil n))
    where
      suc_add : (a b : ℕ) → suc a + b ≡ suc (a + b)
      suc_add a b = omega arith

      drop_nil : (k : ℕ) → drop k [] ≡ []
      drop_nil zero = refl
      drop_nil (suc k) = refl
  drop-drop (suc a) n (x ∷ xs) = rw (suc_add a n) (drop-drop a n xs)
    where
      suc_add : (a b : ℕ) → suc a + b ≡ suc (a + b)
      suc_add a b = omega arith

  pub drop_self : (xs : List A) → drop (length xs) xs ≡ []
  drop_self [] = refl
  drop_self (x ∷ xs) = drop_self xs

  pub take_self : (xs : List A) → take (length xs) xs ≡ xs
  take_self [] = refl
  take_self (x ∷ xs) = ap (◌∷◌ x) (take_self xs)

encode-append : (s t : Text) → encode (s ++ t) ≡ encode s ++ encode t
unfolding encode
encode-append [] t = refl
encode-append (c ∷ s) t =
    rw (encode-append s t) (sym (append_assoc (char_bytes c) (encode s) (encode t)))

-- The bytes between the offsets of two characters are the bytes of the text between them.
pub slice-encode :
    (before middle after : Text)
    → slice
        (length (encode before))
        (length (encode (before ++ middle)))
        (encode ((before ++ middle) ++ after))
      ≡ encode middle
slice-encode before middle after =
    let whole : encode ((before ++ middle) ++ after)
        ≡ encode before ++ (encode middle ++ encode after) =
      encode-append (before ++ middle) after
      ∙ ap (λ bs. bs ++ encode after) (encode-append before middle)
      ∙ append_assoc (encode before) (encode middle) (encode after) in
    let room : length (encode (before ++ middle)) - length (encode before)
        ≡ length (encode middle) =
      rw (encode-append before middle)
        (omega (arith, length-append (encode before) (encode middle))) in
    rw (whole, room, drop-append (encode before) (encode middle ++ encode after))
      (take-append (encode middle) (encode after))

pub length-encode-append :
    (s t : Text) → length (encode (s ++ t)) ≡ length (encode s) + length (encode t)
length-encode-append s t = ap length (encode-append s t) ∙ length-append (encode s) (encode t)

-- Every character takes a byte at least.
pub encode_some : (c : ℕ) (t : Text) → 0 < length (encode (c ∷ t))
unfolding encode char_bytes
encode_some c t = ground arith
