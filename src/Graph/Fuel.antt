-- ===== src/Graph/Fuel.antt =====
-- Fuel for as many keys as the graph has is enough for `visit`.
use myknowledgebase.Prelude.{
  ap, ℕ, zero, suc, ◌+◌, ◌<◌, ◌≤◌, ◌≡◌, ◌≢◌, refl, inl, inr, true, none, List, [], ◌∷◌, Memᴰ, arith,
  Eq, err, >>=-eq-err, lookup, if◌then◌else◌, is_some, length,
}
use myknowledgebase.Graph.{Adjacency, visiting, Marks, out_of_fuel, targets, visit_each, visit}
use myknowledgebase.Graph.Edges.{Edge}
use myknowledgebase.Graph.Visit.{Grows, visit-Grows, mark_cases}

module _ {ℓ} {K : Type ℓ} ⦃e : Eq K⦄ where
  -- How many of the keys have no mark yet.
  unmarked : List K → Marks K → ℕ
  unmarked [] st = 0
  unmarked (k ∷ ks) st = (if is_some (lookup st k) then 0 else 1) + unmarked ks st

  unmarked-le-length : (ks : List K) (st : Marks K) → unmarked ks st ≤ length ks
  unfolding unmarked
  unmarked-le-length [] st = omega arith
  unmarked-le-length (k ∷ ks) st = ground (arith, unmarked-le-length ks st)

  unmarked_mono :
      (ks : List K) (st st' : Marks K)
      → ((x : K) → is_some (lookup st x) ≡ true → is_some (lookup st' x) ≡ true)
      → unmarked ks st' ≤ unmarked ks st
  unfolding unmarked
  unmarked_mono [] st st' h = omega arith
  unmarked_mono (k ∷ ks) st st' h = ground (arith, unmarked_mono ks st st' h, h k)

  unmarked-lt :
      (ks : List K) (st : Marks K) {k : K}
      → Memᴰ k ks
      → lookup st k ≡ none
      → unmarked ks ((k, visiting) ∷ st) < unmarked ks st
  unfolding unmarked
  unmarked-lt [] st m h = elim m [ ]
  unmarked-lt (x ∷ ks) st {k} (Memᴰ.head p) h =
      let u = unmarked_mono ks st ((k, visiting) ∷ st) (λ y g. ground arith) in
      ground (arith, e.test_iff k x, ap (lookup st) p)
  unmarked-lt (x ∷ ks) st {k} (Memᴰ.tail m) h = ground (arith, unmarked-lt ks st m h)

  Grows-is_some :
      {st st' : Marks K}
      → Grows st st'
      → (x : K) → is_some (lookup st x) ≡ true
      → is_some (lookup st' x) ≡ true
  Grows-is_some {st} g x h = elim (mark_cases (lookup st x)) [
    | inl p ↦ cc
    | inr (inl p) ↦ ap is_some (g.open_kept x p)
    | inr (inr p) ↦ ap is_some (g.kept x p)
  ]

  module _ (keys : List K) (adj : Adjacency K)
      (inside : (k t : K) → Memᴰ k keys → Edge adj k t → Memᴰ t keys) where
    each_no_fuel_error :
        (f : ℕ)
        → ((st : Marks K) (k : K)
            → Memᴰ k keys
            → unmarked keys st < f
            → visit f adj st k ≢ err out_of_fuel)
        → (ts : List K) (st : Marks K) → ((t : K) → Memᴰ t ts → Memᴰ t keys)
        → unmarked keys st < f
        → visit_each (visit f adj) ts st ≢ err out_of_fuel
    unfolding visit_each
    each_no_fuel_error f go [] st sub u h = cc
    each_no_fuel_error f go (t ∷ ts) st sub u h =
        elim (>>=-eq-err (visit f adj st t) (visit_each (visit f adj) ts) h) [
          | inl q ↦ go st t (sub t (Memᴰ.head refl)) u q
          | inr r ↦
              each_no_fuel_error f go ts r.0 (λ x m. sub x (Memᴰ.tail m))
                (omega (
                  arith,
                  unmarked_mono keys st r.0 (Grows-is_some (visit-Grows f adj st t r.0 r.1)),
                ))
                r.2
        ]

    visit_no_fuel_error :
        (f : ℕ) (st : Marks K) (k : K)
        → Memᴰ k keys
        → unmarked keys st < f
        → visit f adj st k ≢ err out_of_fuel
    unfolding visit
    visit_no_fuel_error zero st k m u h = absurd (omega arith)
    visit_no_fuel_error (suc f) st k m u h = elim (mark_cases (lookup st k)) [
      | inl new ↦
          elim (>>=-eq-err (visit_each (visit f adj) (targets adj k) ((k, visiting) ∷ st)) _
            (rw (new, visit) at h)) [
              | inl q ↦
                  each_no_fuel_error f (visit_no_fuel_error f) (targets adj k) ((k, visiting) ∷ st)
                    (λ t x. inside k t m x) (omega (arith, unmarked-lt keys st m new)) q
              | inr r ↦ cc (r.2)
            ]
      | inr (inl open_now) ↦ cc (rw (open_now, visit) at h)
      | inr (inr old) ↦ cc (rw (old, visit) at h)
    ]

    -- A walk that may go as deep as there are keys never runs out of fuel.
    pub visit_fuel : (k : K) → Memᴰ k keys → visit (suc (length keys)) adj [] k ≢ err out_of_fuel
    visit_fuel k m =
        visit_no_fuel_error (suc (length keys)) [] k m (omega (arith, unmarked-le-length keys []))
