-- ===== src/Graph/Search.antt =====
-- `_can_reach` decides whether a path leads from the source to another key.
use myknowledgebase.Prelude.{
  beq_false→ne, ap, ℕ, zero, suc, ◌+◌, ◌≤◌, ◌≡◌, ◌≢◌, refl, sym, inl, inr, true, false, Bool,
  Option, none, some, List, [], ◌∷◌, ◌++◌, arith, Eq, ◌==◌, Bool-cases, ◌⊎◌, ◌↔◌, subst, beq→eq,
  beq_refl, if◌then◌else◌, length, length-append, contains, mem-contains, contains-mem, keep, not,
  ◌&&◌, ◌||◌,
}
use myknowledgebase.Graph.{Adjacency, targets, search_from, edges_left, can_reach}
use myknowledgebase.Graph.Edges.{edge, Trail, here, step}

cases : (o : Option Bool) → (o ≡ none) ⊎ ((o ≡ some true) ⊎ (o ≡ some false))
cases none = inl refl
cases (some true) = inr (inl refl)
cases (some false) = inr (inr refl)

module _ {ℓ} {A : Type ℓ} where
  length-keep : (test : A → Bool) (xs : List A) → length (keep test xs) ≤ length xs
  length-keep test [] = omega arith
  length-keep test (x ∷ xs) = ground (arith, length-keep test xs)

module _ {ℓ} {K : Type ℓ} ⦃e : Eq K⦄ where
  contains-append :
      (xs ys : List K) (a : K) → contains (xs ++ ys) a ≡ (contains xs a || contains ys a)
  contains-append [] ys a = refl
  contains-append (x ∷ xs) ys a = ground (arith, contains-append xs ys a)

  contains-keep :
      (test : K → Bool) (xs : List K) (a : K)
      → contains (keep test xs) a ≡ (contains xs a && test a)
  contains-keep test [] a = refl
  contains-keep test (x ∷ xs) a = elim (Bool-cases (x == a)) [
    | inl p ↦ ground (arith, contains-keep test xs a, ap test (beq→eq x a p))
    | inr q ↦ ground (arith, contains-keep test xs a)
  ]

  -- What is pushed when `k` is expanded.
  abbrev pushed : Adjacency K → K → List K → List K
  pushed adj k seen = keep (λ t. not (contains (k ∷ seen) t)) (targets adj k)

  -- A key on the stack leads to the goal if the loop says so.
  search_sound :
      (f : ℕ) (adj : Adjacency K) (goal : K) (seen pending : List K)
      → search_from f adj goal seen pending ≡ some true
      → (k : K) × (contains pending k ≡ true) × Trail adj k goal
  unfolding search_from
  search_sound zero adj goal seen [] h = cc
  search_sound (suc f) adj goal seen [] h = cc
  search_sound zero adj goal seen (k ∷ pending) h = cc
  search_sound (suc f) adj goal seen (k ∷ pending) h = elim (Bool-cases (k == goal)) [
    | inl p ↦ (k, ground (arith, beq_refl k), subst (λ w. Trail adj k w) (beq→eq k goal p) here)
    | inr p ↦ elim (Bool-cases (contains seen k)) [
      | inl q ↦
          let r = search_sound f adj goal seen pending (ground arith) in
          (r.0, ground (arith, r.1), r.2)
      | inr q ↦
          let r =
            search_sound f adj goal (k ∷ seen) (pushed adj k seen ++ pending) (ground arith) in
          elim (Bool-cases (contains pending r.0)) [
            | inl old ↦ (r.0, ground arith, r.2)
            | inr new ↦ (
              k,
              ground (arith, beq_refl k),
              step
                  (contains-mem (targets adj k) r.0 (
                    ground (
                      arith,
                      r.1,
                      contains-append (pushed adj k seen) pending r.0,
                      contains-keep (λ t. not (contains (k ∷ seen) t)) (targets adj k) r.0,
                    )))
                  r.2,
            )
          ]
    ]
  ]

  -- Every target of a seen key is seen or on the stack, and the goal is not seen.
  record Frontier (adj : Adjacency K) (goal : K) (seen pending : List K) : Type ℓ where
    ahead :
        (k t : K)
        → contains seen k ≡ true
        → edge adj k t ≡ true
        → (contains seen t || contains pending t) ≡ true
    not_goal : contains seen goal ≡ false

  Frontier-expand :
      (adj : Adjacency K) (goal k : K) (seen pending : List K)
      → (k == goal) ≡ false
      → Frontier adj goal seen (k ∷ pending)
      → Frontier adj goal (k ∷ seen) (pushed adj k seen ++ pending)
  Frontier-expand adj goal k seen pending p fr = record {
    ahead = λ j t m x. elim (Bool-cases (k == j)) [
      | inl q ↦
          let x' = subst (λ w. edge adj w t ≡ true) (sym (beq→eq k j q)) x in
          ground (
            arith,
            x',
            contains-append (pushed adj k seen) pending t,
            contains-keep (λ t. not (contains (k ∷ seen) t)) (targets adj k) t,
          )
      | inr q ↦
          ground
            (arith, fr.ahead j t (ground arith) x, contains-append (pushed adj k seen) pending t)
    ];
    not_goal = ground (arith, fr.not_goal);
  }

  Frontier-skip :
      (adj : Adjacency K) (goal k : K) (seen pending : List K)
      → contains seen k ≡ true
      → Frontier adj goal seen (k ∷ pending)
      → Frontier adj goal seen pending
  Frontier-skip adj goal k seen pending q fr = record {
    ahead = λ j t m x.
        ground (arith, fr.ahead j t m x, e.test_iff k t, λ (r : k ≡ t). ap (contains seen) r);
    not_goal = fr.not_goal;
  }

  Frontier-done :
      (adj : Adjacency K) (goal : K) (seen : List K) {k : K}
      → Frontier adj goal seen []
      → contains seen k ≡ true
      → ¬ Trail adj k goal
  Frontier-done adj goal seen fr m here = cc (m, fr.not_goal)
  Frontier-done adj goal seen fr m (step {s = k} {t = t} x p) =
      Frontier-done adj goal seen fr
        (ground (arith, fr.ahead k t m (mem-contains (targets adj k) x))) p

  -- If the loop says no, then no key that is seen or on the stack leads to the goal.
  search_complete :
      (f : ℕ) (adj : Adjacency K) (goal : K) (seen pending : List K)
      → Frontier adj goal seen pending
      → search_from f adj goal seen pending ≡ some false
      → (k : K) → (contains seen k || contains pending k) ≡ true
      → ¬ Trail adj k goal
  unfolding search_from
  search_complete zero adj goal seen [] fr h k m = Frontier-done adj goal seen fr (ground arith)
  search_complete (suc f) adj goal seen [] fr h k m = Frontier-done adj goal seen fr (ground arith)
  search_complete zero adj goal seen (x ∷ pending) fr h k m = cc
  search_complete (suc f) adj goal seen (x ∷ pending) fr h k m = elim (Bool-cases (x == goal)) [
    | inl p ↦ cc (rw (p, search_from) at h)
    | inr p ↦ elim (Bool-cases (contains seen x)) [
      | inl q ↦
          search_complete f adj goal seen pending (Frontier-skip adj goal x seen pending q fr)
            (ground arith) k (ground (arith, e.test_iff x k, λ (r : x ≡ k). ap (contains seen) r))
      | inr q ↦
          search_complete f adj goal (x ∷ seen) (pushed adj x seen ++ pending)
            (Frontier-expand adj goal x seen pending p fr) (ground arith) k
            (ground (arith, contains-append (pushed adj x seen) pending k))
    ]
  ]

  edges_left_mono :
      (adj : Adjacency K) (k : K) (seen : List K) → edges_left (k ∷ seen) adj ≤ edges_left seen adj
  unfolding edges_left
  edges_left_mono [] k seen = omega arith
  edges_left_mono ((j, ts) ∷ adj) k seen = ground (arith, edges_left_mono adj k seen)

  edges_left-cons :
      (adj : Adjacency K) (k : K) (seen : List K)
      → contains seen k ≡ false
      → edges_left (k ∷ seen) adj + length (targets adj k) ≤ edges_left seen adj
  unfolding edges_left targets
  edges_left-cons [] k seen h = omega arith
  edges_left-cons ((j, ts) ∷ adj) k seen h = elim (Bool-cases (j == k)) [
    | inl p ↦
        let same = beq→eq j k p in
        ground (arith, edges_left_mono adj k seen, ap (contains seen) same, same, beq_refl k)
    | inr q ↦ ground (arith, edges_left-cons adj k seen h, e.test_iff j k, e.test_iff k j)
  ]

  search_fuel :
      (f : ℕ) (adj : Adjacency K) (goal : K) (seen pending : List K)
      → length pending + edges_left seen adj ≤ f
      → search_from f adj goal seen pending ≢ none
  unfolding search_from
  search_fuel zero adj goal seen [] h = cc
  search_fuel (suc f) adj goal seen [] h = cc
  search_fuel zero adj goal seen (k ∷ pending) h = absurd (omega arith)
  search_fuel (suc f) adj goal seen (k ∷ pending) h = ground (
    arith,
    search_fuel f adj goal seen pending,
    search_fuel f adj goal (k ∷ seen) (pushed adj k seen ++ pending),
    length-append {ℓ} (pushed adj k seen) pending,
    length-keep (λ t. not (contains (k ∷ seen) t)) (targets adj k),
    edges_left-cons adj k seen,
  )

  can_reach_lem :
      (adj : Adjacency K) (source target : K)
      → can_reach adj source target ≡ (
          if source == target
          then some false
          else search_from (suc (edges_left [] adj)) adj target [] (source ∷ []))
  unfolding can_reach
  can_reach_lem adj source target = refl

  -- The loop of `_can_reach` always answers, and it answers whether a path leads from the source to
  -- a target other than the source.
  pub can_reach_decides :
      (adj : Adjacency K) (source target : K)
      → (can_reach adj source target ≢ none)
        × ((can_reach adj source target ≡ some true)
            ↔ ((source ≢ target) × Trail adj source target))
  can_reach_decides adj source target = elim (Bool-cases (source == target)) [
    | inl p ↦ rw (can_reach_lem, p) (λ h. cc, (λ h. cc, λ h. absurd (h.0 (beq→eq source target p))))
    | inr q ↦
        let fuel = suc (edges_left [] adj) in
        let total = search_fuel fuel adj target [] (source ∷ []) (omega arith) in
        rw (can_reach_lem, q)
          (
            total,
            (
              λ h. (
                beq_false→ne source target q,
                (let r = search_sound fuel adj target [] (source ∷ []) h in
                    subst (λ w. Trail adj w target) (sym (beq→eq source r.0 (ground (arith, r.1))))
                      r.2),
              ),
              λ h. elim (cases (search_from fuel adj target [] (source ∷ []))) [
                | inl e ↦ absurd (total e)
                | inr (inl e) ↦ e
                | inr (inr e) ↦ absurd (
                    search_complete fuel adj target [] (source ∷ [])
                      (record { ahead = λ j t m x. cc; not_goal = refl }) e source
                      (ground (arith, beq_refl source)) h.1)
              ],
            ),
          )
  ]
