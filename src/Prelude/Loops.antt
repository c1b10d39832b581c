-- ===== src/Prelude/Loops.antt =====
-- Loops that collect the keys of their items in a set and refuse a key that is there already.
use mathlib.Core.Path.{◌≡◌, refl}
use mathlib.Core.Bool.{Bool, true, false, not, ◌||◌}
use mathlib.Core.List.{List, [], ◌∷◌, map}
use native.Mathlib.Omega.{arith}
use myknowledgebase.Prelude.Results.{Result, ok, fold_ok, >>=-eq-ok}
use myknowledgebase.Prelude.Equality.{Eq}
use myknowledgebase.Prelude.Lists.{all, contains, distinct, add, contains-add}

module _ {ℓ κ} {A : Type ℓ} {K : Type κ} ⦃e : Eq K⦄ (key : A → K) where
  abbrev pub new_in : List K → A → Bool
  new_in s a = not (contains s (key a))

  pub all_new-add :
      (k : K) (s : List K) (xs : List A)
      → all (new_in (add k s)) xs ≡ true
      → (all (new_in s) xs ≡ true) × (contains (map key xs) k ≡ false)
  all_new-add k s [] h = (refl, refl)
  all_new-add k s (x ∷ xs) h = ground (
    arith,
    all_new-add k s xs,
    contains-add k (key x) s,
    e.test_iff k (key x),
    e.test_iff (key x) k,
  )

  pub fold_ok-distinct {μ ν} :
      {E : Type μ} {S : Type ν} (step : S → A → Result E S) (seen : S → List K)
      → ((s : S) (a : A) (s' : S)
          → step s a ≡ ok s'
          → (contains (seen s) (key a) ≡ false) × (seen s' ≡ add (key a) (seen s)))
      → (xs : List A) (s : S) {s' : S} → fold_ok step s xs ≡ ok s'
      → (all (new_in (seen s)) xs ≡ true) × (distinct (map key xs) ≡ true)
  fold_ok-distinct step seen taken [] s h = (refl, refl)
  fold_ok-distinct step seen taken (x ∷ xs) s h =
      let r = >>=-eq-ok (step s x) (λ t. fold_ok step t xs) h in
      let t = taken s x r.0 r.1 in
      let ih = fold_ok-distinct step seen taken xs r.0 r.2 in
      let u = all_new-add (key x) (seen s) xs (rw t.1 at ih.0) in
      ground (arith, t.0, ih.1, u.0, u.1)

  -- The set holds in the end what it held before and the keys of the items.
  pub contains-fold_ok {μ ν} :
      {E : Type μ} {S : Type ν} (step : S → A → Result E S) (seen : S → List K)
      → ((s : S) (a : A) (s' : S) → step s a ≡ ok s' → seen s' ≡ add (key a) (seen s))
      → (xs : List A) (s : S) {s' : S} → fold_ok step s xs ≡ ok s'
      → (k : K) → contains (seen s') k ≡ (contains (seen s) k || contains (map key xs) k)
  contains-fold_ok step seen taken [] s h k = ground (arith, h)
  contains-fold_ok step seen taken (x ∷ xs) s h k =
      let r = >>=-eq-ok (step s x) (λ t. fold_ok step t xs) h in
      ground (
        arith,
        contains-fold_ok step seen taken xs r.0 r.2 k,
        taken s x r.0 r.1,
        contains-add (key x) k (seen s),
      )
