-- ===== src/Structure/Granularities.antt =====
-- The granularities of a candidate as sets: those that are declared, and what an adoption keeps.
use myknowledgebase.Prelude.{
  ℕ, ◌≡◌, refl, sym, ap, ◌∙◌, subst, true, ◌&&◌, ◌||◌, Option, some, List, [], ◌∷◌, ok, ◌==◌,
  nat_eq, leb, all, contains, contains-mem, mem-contains, all-mem, all-of_mem, contains-add, arith,
  require-eq-ok, >>-eq-ok, require, and_left, and_right, ok_injective,
}
use myknowledgebase.Structure.Model.{Digests, RetrievalBlock, profile_invalid}
use myknowledgebase.Text.{Text}
use myknowledgebase.Structure.Tree.{sorted, insert_sorted}
use myknowledgebase.Structure.Candidate.{
  LayeredBlock, granularities, as_set, profile_of, declared_granularities,
}
use myknowledgebase.Structure.Validate.{same_set, has_g0}
use myknowledgebase.Structure.Accepted.{AllAnchored, done, next}

SameMembers : List ℕ → List ℕ → Type 0
SameMembers xs ys = (g : ℕ) → contains xs g ≡ contains ys g

contains-insert_sorted :
    (x g : ℕ) (xs : List ℕ) → contains (insert_sorted x xs) g ≡ ((x == g) || contains xs g)
contains-insert_sorted x g [] = refl
contains-insert_sorted x g (y ∷ ys) = ground (arith, contains-insert_sorted x g ys)

contains-sorted : (xs : List ℕ) (g : ℕ) → contains (sorted xs) g ≡ contains xs g
contains-sorted [] g = refl
contains-sorted (x ∷ xs) g = contains-insert_sorted x g (sorted xs) ∙ rw (contains-sorted xs g) refl

contains-as_set : (xs : List ℕ) (g : ℕ) → contains (as_set xs) g ≡ contains xs g
contains-as_set [] g = refl
contains-as_set (x ∷ xs) g = contains-add x g (as_set xs) ∙ rw (contains-as_set xs g) refl

pub declared_granularities-ok :
    (o : Option (List ℕ)) {declared : List ℕ}
    → declared_granularities o ≡ ok declared
    → (all (λ g. leb g 2) declared ≡ true)
      × (contains declared 0 ≡ true)
      × ((g : ℕ) → contains declared g ≡ contains (profile_of o) g)
unfolding declared_granularities
declared_granularities-ok o {declared} h =
    let p =
      >>-eq-ok
        (require
          (all (λ g. leb g 2) (sorted (as_set (profile_of o)))
            && contains (sorted (as_set (profile_of o))) 0)
          profile_invalid)
        _ h in
    let t = require-eq-ok _ _ p.0 in
    let e = ok_injective p.1 in
    (
      subst (λ d. all (λ g. leb g 2) d ≡ true) e (and_left _ _ t),
      subst (λ d. contains d 0 ≡ true) e (and_right _ _ t),
      λ g.
          ap (λ d. contains d g) (sym e)
          ∙ contains-sorted (as_set (profile_of o)) g
          ∙ contains-as_set (profile_of o) g,
    )

-- A profile that was declared is declared again as the same set.
pub profile_again :
    (declared : List ℕ) → contains declared 0 ≡ true → profile_of (some declared) ≡ declared
profile_again [] h = cc
profile_again (g ∷ gs) h = refl

all_contained :
    (xs ys zs : List ℕ)
    → ((g : ℕ) → contains xs g ≡ contains ys g)
    → all (contains zs) ys ≡ true
    → all (contains zs) xs ≡ true
all_contained xs ys zs same h =
    all-of_mem (contains zs) xs
      (λ g m. all-mem (contains zs) ys h (contains-mem ys g (sym (same g) ∙ mem-contains xs m)))

all_same :
    (xs ys zs : List ℕ)
    → ((g : ℕ) → contains ys g ≡ contains zs g)
    → all (contains ys) xs ≡ true
    → all (contains zs) xs ≡ true
all_same xs ys zs same h =
    all-of_mem (contains zs) xs (λ g m. sym (same g) ∙ all-mem (contains ys) xs h m)

pub same_set_ext :
    (xs ys ds es : List ℕ)
    → ((g : ℕ) → contains xs g ≡ contains ys g)
    → ((g : ℕ) → contains ds g ≡ contains es g)
    → same_set ys es ≡ true
    → same_set xs ds ≡ true
same_set_ext xs ys ds es s t h = ground (
  arith,
  all_same xs es ds (λ g. sym (t g)) (all_contained xs ys es s (and_left _ _ h)),
  all_same ds ys xs (λ g. sym (s g))
      (all_contained ds es ys t (and_right (all (contains es) ys) _ h)),
)

pub AllAnchored-has_g0 :
    (k : Digests) (clean : Text) {raws : List LayeredBlock} {blocks : List RetrievalBlock}
    → AllAnchored k clean raws blocks
    → contains (granularities raws) 0 ≡ true
    → has_g0 blocks ≡ true
AllAnchored-has_g0 k clean done h = cc
AllAnchored-has_g0 k clean (next {raw} {block} {raws} {blocks} a rest) h =
    ground
      (arith, AllAnchored-has_g0 k clean {raws = raws} {blocks = blocks} rest, a.grained, a.worded)
