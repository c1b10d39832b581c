-- ===== src/Inference/Order.antt =====
-- The order of attempts of src/runtime/inference/agent_router.py.
use myknowledgebase.Prelude.{
  beq→eq, ℕ, zero, suc, ◌%◌, ◌≡◌, refl, ap, ◌∙◌, String, Bool, true, not, ◌&&◌, ◌||◌, Option, none,
  some, List, [], ◌∷◌, ◌++◌, ◌==◌, string_eq, keep, length, contains, distinct, arith, Bool-cases,
  inl, inr,
}
use myknowledgebase.Inference.Router.{
  agent_providers, is_fallback, is_primary, from_keys, skip, first, rotated, next_fallback_order,
  attempt_order,
}

contains-keep :
    (test : String → Bool) (xs : List String) (a : String)
    → contains (keep test xs) a ≡ (contains xs a && test a)
contains-keep test [] a = refl
contains-keep test (x ∷ xs) a = elim (Bool-cases (x == a)) [
  | inl same ↦ ground (arith, contains-keep test xs a, ap test (beq→eq x a same), same)
  | inr other ↦ ground (arith, contains-keep test xs a, other)
]

distinct-keep :
    (test : String → Bool) (xs : List String) → distinct xs ≡ true → distinct (keep test xs) ≡ true
distinct-keep test [] h = refl
distinct-keep test (x ∷ xs) h = ground (arith, distinct-keep test xs, contains-keep test xs x)

pub distinct-from_keys : (xs : List String) → distinct (from_keys xs) ≡ true
unfolding from_keys
distinct-from_keys [] = refl
distinct-from_keys (x ∷ xs) = ground (
  arith,
  distinct-keep (λ (y : String). not (x == y)) (from_keys xs) (distinct-from_keys xs),
  contains-keep (λ (y : String). not (x == y)) (from_keys xs) x,
  string_eq.test_iff x x,
)

contains-from_keys : (xs : List String) (a : String) → contains (from_keys xs) a ≡ contains xs a
unfolding from_keys
contains-from_keys [] a = refl
contains-from_keys (x ∷ xs) a =
    ground (
      arith,
      contains-from_keys xs a,
      contains-keep (λ (y : String). not (x == y)) (from_keys xs) a,
    )

contains-++ :
    (xs ys : List String) (a : String) → contains (xs ++ ys) a ≡ (contains xs a || contains ys a)
contains-++ [] ys a = refl
contains-++ (x ∷ xs) ys a = ground (arith, contains-++ xs ys a)

contains-rotated :
    (start : ℕ) (xs : List String) (a : String) → contains (rotated start xs) a ≡ contains xs a
unfolding rotated
contains-rotated start xs a = contains-++ (skip start xs) (first start xs) a ∙ parts start xs
  where
    parts :
        (n : ℕ) (ys : List String)
        → (contains (skip n ys) a || contains (first n ys) a) ≡ contains ys a
    parts zero ys = ground arith
    parts (suc n) [] = refl
    parts (suc n) (y ∷ ys) = ground (arith, parts n ys)

contains-next_fallback_order :
    (cursor : Option ℕ) (index : ℕ) (plan : List String) (a : String)
    → contains (next_fallback_order cursor index plan).0 a ≡ contains (keep is_fallback plan) a
unfolding next_fallback_order
contains-next_fallback_order (some cursor) index plan a =
    ground
      (arith, contains-rotated (cursor % length (keep is_fallback plan)) (keep is_fallback plan) a)
contains-next_fallback_order none index plan a =
    ground
      (arith, contains-rotated (index % length (keep is_fallback plan)) (keep is_fallback plan) a)

-- An order of attempts has no provider twice, and has exactly those of the plan that are known, wherever
-- the fallbacks start.
pub attempt_order-distinct :
    (cursor : Option ℕ) (index : ℕ) (plan : List String) (provider : String)
    → (distinct (attempt_order cursor index plan).0 ≡ true)
      × (contains (attempt_order cursor index plan).0 provider
          ≡ (contains plan provider && contains agent_providers provider))
unfolding attempt_order
attempt_order-distinct cursor index plan provider = (
  distinct-from_keys (keep is_primary plan ++ (next_fallback_order cursor index plan).0),
  contains-from_keys (keep is_primary plan ++ (next_fallback_order cursor index plan).0) provider
      ∙ contains-++ (keep is_primary plan) (next_fallback_order cursor index plan).0 provider
      ∙ (ground (
        arith,
        contains-keep is_primary plan provider,
        contains-keep is_fallback plan provider,
        contains-next_fallback_order cursor index plan provider,
        string_eq.test_iff provider "claude",
        string_eq.test_iff "claude" provider,
        string_eq.test_iff provider "agy",
        string_eq.test_iff "agy" provider,
        string_eq.test_iff provider "cursor-agent",
        string_eq.test_iff "cursor-agent" provider,
        string_eq.test_iff provider "grok",
        string_eq.test_iff "grok" provider,
      )),
)
