-- ===== src/Prelude/Lists.antt =====
-- Lists measured by native numbers, and the sets and dictionaries that the code builds over keys.
use Prim.Native.Nat.{ℕ, suc, ◌+◌}
use mathlib.Core.Path.{◌∙◌, ◌≡◌, refl, sym, ap}
use mathlib.Core.Logic.{inl, inr}
use mathlib.Core.Bool.{Bool, true, false, ◌&&◌, ◌||◌, not}
use mathlib.Core.List.{map, List, [], ◌∷◌, ◌++◌, Memᴰ}
use mathlib.Core.List.Memᴰ
use mathlib.Core.Option.{Option, none, some}
use native.Mathlib.Omega.{arith}
use myknowledgebase.Prelude.Tests.{if◌then◌else◌, Bool-cases}
use myknowledgebase.Prelude.Equality.{Eq, ◌==◌, beq→eq}

module _ {ℓ} {A : Type ℓ} where
  abbrev pub length : List A → ℕ
  length [] = 0
  length (x ∷ xs) = suc (length xs)

  pub length-append : (xs ys : List A) → length (xs ++ ys) ≡ length xs + length ys
  length-append [] ys = omega arith
  length-append (x ∷ xs) ys = omega (arith, length-append xs ys)

  -- `any(test(x) for x in xs)`
  abbrev pub any : (A → Bool) → List A → Bool
  any test [] = false
  any test (x ∷ xs) = test x || any test xs

  -- `all(test(x) for x in xs)`
  abbrev pub all : (A → Bool) → List A → Bool
  all test [] = true
  all test (x ∷ xs) = test x && all test xs

  -- `[x for x in xs if test(x)]`
  abbrev pub keep : (A → Bool) → List A → List A
  keep test [] = []
  keep test (x ∷ xs) = let rest = keep test xs in if test x then x ∷ rest else rest

  pub all-mem :
      (test : A → Bool) (xs : List A) {a : A} → all test xs ≡ true → Memᴰ a xs → test a ≡ true
  all-mem test [] h m = elim m [ ]
  all-mem test (x ∷ xs) {a} h (Memᴰ.head p) = ground (arith, ap test p)
  all-mem test (x ∷ xs) h (Memᴰ.tail m) = all-mem test xs (ground arith) m

  pub any-mem :
      (test : A → Bool) (xs : List A) → any test xs ≡ true → (a : A) × Memᴰ a xs × (test a ≡ true)
  any-mem test [] h = cc
  any-mem test (x ∷ xs) h = elim (Bool-cases (test x)) [
    | inl p ↦ (x, Memᴰ.head refl, p)
    | inr q ↦ let r = any-mem test xs (ground arith) in (r.0, Memᴰ.tail r.1, r.2)
  ]

  pub mem-any :
      (test : A → Bool) (xs : List A) {a : A} → Memᴰ a xs → test a ≡ true → any test xs ≡ true
  mem-any test [] m h = elim m [ ]
  mem-any test (x ∷ xs) {a} (Memᴰ.head p) h = ground (arith, ap test p)
  mem-any test (x ∷ xs) (Memᴰ.tail m) h = ground (arith, mem-any test xs m h)

module _ {ℓ} {A : Type ℓ} ⦃e : Eq A⦄ where
  -- `a in xs`
  abbrev pub contains : List A → A → Bool
  contains [] a = false
  contains (x ∷ xs) a = (x == a) || contains xs a

  -- `len(set(xs)) == len(xs)`
  abbrev pub distinct : List A → Bool
  distinct [] = true
  distinct (x ∷ xs) = not (contains xs x) && distinct xs

  -- `s.add(a)`, on a set as a list with no repetition
  abbrev pub add : A → List A → List A
  add a s = if contains s a then s else a ∷ s

  pub contains-mem : (xs : List A) (a : A) → contains xs a ≡ true → Memᴰ a xs
  contains-mem [] a h = cc
  contains-mem (x ∷ xs) a h = elim (Bool-cases (x == a)) [
    | inl p ↦ Memᴰ.head (sym (beq→eq x a p))
    | inr q ↦ Memᴰ.tail (contains-mem xs a (ground arith))
  ]

  pub mem-contains : (xs : List A) {a : A} → Memᴰ a xs → contains xs a ≡ true
  mem-contains [] m = elim m [ ]
  mem-contains (x ∷ xs) {a} (Memᴰ.head p) = ground (arith, e.test_iff x a)
  mem-contains (x ∷ xs) (Memᴰ.tail m) = ground (arith, mem-contains xs m)

  pub contains-add : (a b : A) (s : List A) → contains (add a s) b ≡ ((a == b) || contains s b)
  contains-add a b s = elim (Bool-cases (contains s a)) [
    | inl old ↦ ground (arith, e.test_iff a b, old)
    | inr new ↦ ground (arith, new)
  ]

-- A dictionary as an association list; the newest entry of a key is found first.
module _ {ℓ κ} {K : Type ℓ} {V : Type κ} ⦃e : Eq K⦄ where
  -- `m.get(k)`
  abbrev pub lookup : List (K × V) → K → Option V
  lookup [] k = none
  lookup ((j, v) ∷ m) k = if j == k then some v else lookup m k

module _ {ℓ} {A : Type ℓ} where
  pub all-of_mem :
      (test : A → Bool) (xs : List A) → ((a : A) → Memᴰ a xs → test a ≡ true) → all test xs ≡ true
  all-of_mem test [] h = refl
  all-of_mem test (x ∷ xs) h =
      ground (arith, h x (Memᴰ.head refl), all-of_mem test xs (λ a m. h a (Memᴰ.tail m)))

  pub mem-keep :
      (test : A → Bool) (xs : List A) {a : A} → Memᴰ a xs → test a ≡ true → Memᴰ a (keep test xs)
  mem-keep test [] m h = elim m [ ]
  mem-keep test (x ∷ xs) {a} (Memᴰ.head p) h =
      let t : test x ≡ true = sym (ap test p) ∙ h in rw t (Memᴰ.head p)
  mem-keep test (x ∷ xs) {a} (Memᴰ.tail m) h = elim (Bool-cases (test x)) [
    | inl t ↦ rw t (Memᴰ.tail (mem-keep test xs m h))
    | inr t ↦ rw t (mem-keep test xs m h)
  ]

  pub keep-mem :
      (test : A → Bool) (xs : List A) {a : A} → Memᴰ a (keep test xs) → Memᴰ a xs × (test a ≡ true)
  keep-mem test [] m = elim m [ ]
  keep-mem test (x ∷ xs) {a} m = elim (Bool-cases (test x)) [
    | inl t ↦ elim (Memᴰ.cases_cons (rw t at m)) [
      | inl p ↦ (Memᴰ.head p, ap test p ∙ t)
      | inr m' ↦ let r = keep-mem test xs m' in (Memᴰ.tail r.0, r.1)
    ]
    | inr t ↦ let r = keep-mem test xs (rw t at m) in (Memᴰ.tail r.0, r.1)
  ]

module _ {ℓ κ} {A : Type ℓ} {K : Type κ} where
  pub mem-map : (f : A → K) (xs : List A) {a : A} → Memᴰ a xs → Memᴰ (f a) (map f xs)
  mem-map f [] m = elim m [ ]
  mem-map f (x ∷ xs) (Memᴰ.head p) = Memᴰ.head (ap f p)
  mem-map f (x ∷ xs) (Memᴰ.tail m) = Memᴰ.tail (mem-map f xs m)

  pub mem_of_map :
      (f : A → K) (xs : List A) {k : K} → Memᴰ k (map f xs) → (a : A) × Memᴰ a xs × (f a ≡ k)
  mem_of_map f [] m = elim m [ ]
  mem_of_map f (x ∷ xs) (Memᴰ.head p) = (x, Memᴰ.head refl, sym p)
  mem_of_map f (x ∷ xs) (Memᴰ.tail m) = let r = mem_of_map f xs m in (r.0, Memᴰ.tail r.1, r.2)

module _ {ℓ κ} {K : Type ℓ} {V : Type κ} ⦃e : Eq K⦄ where
  pub lookup-mem : (m : List (K × V)) (k : K) {v : V} → lookup m k ≡ some v → Memᴰ (k, v) m
  lookup-mem [] k h = cc
  lookup-mem ((j, w) ∷ m) k h = elim (Bool-cases (j == k)) [
    | inl p ↦ Memᴰ.head (ground (arith, e.test_iff j k))
    | inr q ↦ Memᴰ.tail (lookup-mem m k (rw q at h))
  ]
