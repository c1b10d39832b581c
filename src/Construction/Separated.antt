-- ===== src/Construction/Separated.antt =====
-- The body of a text with headers, read back as what follows the first empty line.
use mathlib.Core.List.{append_assoc}
use myknowledgebase.Structure.Model.{is_empty}
use myknowledgebase.Prelude.{
  and_right, ◌≢◌, and_left, ℕ, ◌≡◌, refl, sym, ap, ◌∙◌, String, true, false, ◌&&◌, List, [], ◌∷◌,
  ◌++◌, ok, arith, ◌==◌, nat_eq, string_eq, all, contains, >>-eq-ok, require, require-eq-ok,
  ok_injective, if◌then◌else◌,
}
use myknowledgebase.Text.{Text}
use myknowledgebase.Construction.Content.{
  is_key_char, insert_header, recipe_unsupported, metadata_projection_invalid, is_valid_header,
  is_header_key, line, joined, with_headers, sort_headers, content_full,
}

-- What stands after the first two line ends in a row.
abbrev pub after_empty_line : Text → Text
after_empty_line [] = []
after_empty_line (c ∷ []) = []
after_empty_line (c ∷ (d ∷ t)) =
    let rest = after_empty_line (d ∷ t) in if (c == 10) && (d == 10) then t else rest

-- A text with no line end, before another text.
skip_line :
    (c : ℕ) (s t : Text)
    → contains (c ∷ s) 10 ≡ false
    → after_empty_line ((c ∷ s) ++ (10 ∷ t)) ≡ after_empty_line (10 ∷ t)
skip_line c [] t h = ground arith
skip_line c (d ∷ s) t h = ground (arith, skip_line d s t)

contains-append :
    (s t : Text) → contains s 10 ≡ false → contains t 10 ≡ false → contains (s ++ t) 10 ≡ false
contains-append [] t p q = q
contains-append (c ∷ s) t p q = ground (arith, contains-append s t)

key_chars : (t : Text) → all is_key_char t ≡ true → contains t 10 ≡ false
key_chars [] h = refl
key_chars (c ∷ t) h = ground (
  arith,
  key_chars t (and_right (is_key_char c) _ h),
  and_left (is_key_char c) (all is_key_char t) h,
)

-- A line begins with a letter, and has no line end.
line_form :
    (h : Text × Text)
    → is_valid_header h ≡ true
    → (c : ℕ) × (s : Text) × (line h ≡ c ∷ s) × (c ≢ 10) × (contains (c ∷ s) 10 ≡ false)
line_form ([], value) v = cc
line_form (c ∷ t, value) v =
    let key = and_left (is_header_key (c ∷ t)) _ v in
    let chars = key_chars t (ground (arith, key)) in
    let ne : c ≢ 10 = λ e. ground (arith, key, e) in
    (
      c,
      t ++ (b':' ∷ b' ' ∷ value),
      refl,
      ne,
      ground (arith, contains-append t (b':' ∷ b' ' ∷ value), chars, v, ne),
    )

line_read :
    (h : Text × Text) (t : Text)
    → is_valid_header h ≡ true
    → after_empty_line (line h ++ (10 ∷ t)) ≡ after_empty_line (10 ∷ t)
line_read h t v =
    let f = line_form h v in
    ap (λ x. after_empty_line (x ++ (10 ∷ t))) f.2 ∙ skip_line f.0 f.1 t f.4

not_empty_line :
    (c : ℕ) (t : Text) → c ≢ 10 → after_empty_line (10 ∷ (c ∷ t)) ≡ after_empty_line (c ∷ t)
not_empty_line c t h = ground (arith, h)

joined_form :
    (h : Text × Text) (hs : List (Text × Text)) (t : Text)
    → is_valid_header h ≡ true
    → (c : ℕ) × (s : Text) × (joined (h ∷ hs) ++ t ≡ c ∷ s) × (c ≢ 10)
joined_form h [] t v = let f = line_form h v in (f.0, f.1 ++ t, ap (λ x. x ++ t) f.2, f.3)
joined_form h (g ∷ gs) t v =
    let f = line_form h v in
    (
      f.0,
      (f.1 ++ (10 ∷ joined (g ∷ gs))) ++ t,
      ap (λ x. (x ++ (10 ∷ joined (g ∷ gs))) ++ t) f.2,
      f.3,
    )

headers_read :
    (h : Text × Text) (hs : List (Text × Text)) (body : Text)
    → all is_valid_header (h ∷ hs) ≡ true
    → after_empty_line (joined (h ∷ hs) ++ (10 ∷ 10 ∷ body)) ≡ body
headers_read h [] body v = line_read h (10 ∷ body) (and_left _ _ v)
headers_read h (g ∷ gs) body v =
    let rest = and_right (is_valid_header h) _ v in
    let f = joined_form g gs (10 ∷ 10 ∷ body) (and_left _ _ rest) in
    ap after_empty_line (append_assoc (line h) (10 ∷ joined (g ∷ gs)) (10 ∷ 10 ∷ body))
    ∙ line_read h (joined (g ∷ gs) ++ (10 ∷ 10 ∷ body)) (and_left _ _ v)
    ∙ ap (λ x. after_empty_line (10 ∷ x)) f.2
    ∙ not_empty_line f.0 f.1 f.3
    ∙ ap after_empty_line (sym f.2)
    ∙ headers_read g gs body rest

sorted_empty : (hs : List (Text × Text)) → is_empty (sort_headers hs) ≡ is_empty hs
sorted_empty [] = refl
sorted_empty (h ∷ hs) = inserted (sort_headers hs)
  where
    inserted : (gs : List (Text × Text)) → is_empty (insert_header h gs) ≡ false
    inserted [] = refl
    inserted (g ∷ gs) = ground arith

-- A text that was made with headers gives the body back, as what follows its first empty line; one
-- that was made without is the body.
pub content_full-body :
    (recipe_version : String) (headers : List (Text × Text)) (body : Text) {full : Text}
    → content_full recipe_version headers body ≡ ok full
    → (is_empty headers ≡ true → full ≡ body)
      × (is_empty headers ≡ false → after_empty_line full ≡ body)
unfolding content_full
content_full-body recipe_version headers body {full} h =
    let p = >>-eq-ok (require (recipe_version == "content_full.v1") recipe_unsupported) _ h in
    let q =
      >>-eq-ok (require (all is_valid_header (sort_headers headers)) metadata_projection_invalid) _
        p.1 in
    let e = ok_injective q.1 in
    by_headers headers (sort_headers headers) (sorted_empty headers) (require-eq-ok _ _ q.0) e
  where
    by_headers :
        (hs sorted : List (Text × Text))
        → is_empty sorted ≡ is_empty hs
        → all is_valid_header sorted ≡ true
        → with_headers sorted body ≡ full
        → (is_empty hs ≡ true → full ≡ body) × (is_empty hs ≡ false → after_empty_line full ≡ body)
    by_headers hs [] s v e = (λ _. sym e, λ f. cc)
    by_headers hs (g ∷ gs) s v e =
        (λ f. cc, λ _. ap after_empty_line (sym e) ∙ headers_read g gs body v)
