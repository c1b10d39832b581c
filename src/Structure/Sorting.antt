-- ===== src/Structure/Sorting.antt =====
-- The order in which the compiler adopts the blocks of a candidate: sorted by granularity and number.
use myknowledgebase.Prelude.{
  ◌∙◌, ℕ, ◌≡◌, refl, Bool, not, ◌&&◌, ◌||◌, List, [], ◌∷◌, map, arith, ◌==◌, Eq, nat_eq, pair_eq,
  leb, ltb, contains, distinct, if◌then◌else◌,
}

-- `(g, n) <= (h, m)`, as tuples compare
abbrev pub key_leb : ℕ × ℕ → ℕ × ℕ → Bool
key_leb (g, n) (h, m) = ltb g h || ((g == h) && leb n m)

module _ {ℓ} {A : Type ℓ} (key : A → ℕ × ℕ) where
  abbrev pub insert_by : A → List A → List A
  insert_by x [] = x ∷ []
  insert_by x (y ∷ ys) =
      let rest = insert_by x ys in if key_leb (key x) (key y) then x ∷ (y ∷ ys) else y ∷ rest

  -- `sorted(xs, key=key)`, which is stable
  unfoldable pub sorted_by : List A → List A
  sorted_by [] = []
  sorted_by (x ∷ xs) = insert_by x (sorted_by xs)

  contains-insert_by {κ} :
      {K : Type κ} ⦃e : Eq K⦄ (f : A → K) (x : A) (ys : List A) (k : K)
      → contains (map f (insert_by x ys)) k ≡ ((f x == k) || contains (map f ys) k)
  contains-insert_by f x [] k = refl
  contains-insert_by f x (y ∷ ys) k = ground (arith, contains-insert_by f x ys k)

  distinct-insert_by :
      (x : A) (ys : List A)
      → distinct (map key (insert_by x ys))
        ≡ (not (contains (map key ys) (key x)) && distinct (map key ys))
  distinct-insert_by x [] = refl
  distinct-insert_by x (y ∷ ys) =
      ground (arith, distinct-insert_by x ys, contains-insert_by key x ys (key y))

  pub contains-sorted_by {κ} :
      {K : Type κ} ⦃e : Eq K⦄ (f : A → K) (xs : List A) (k : K)
      → contains (map f (sorted_by xs)) k ≡ contains (map f xs) k
  unfolding sorted_by
  contains-sorted_by f [] k = refl
  contains-sorted_by f (x ∷ xs) k =
      contains-insert_by f x (sorted_by xs) k ∙ rw (contains-sorted_by f xs k) refl

  pub distinct-sorted_by : (xs : List A) → distinct (map key (sorted_by xs)) ≡ distinct (map key xs)
  unfolding sorted_by
  distinct-sorted_by [] = refl
  distinct-sorted_by (x ∷ xs) =
      rw
        (
          distinct-insert_by x (sorted_by xs),
          contains-sorted_by key xs (key x),
          distinct-sorted_by xs,
        )
        refl
