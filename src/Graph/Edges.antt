-- ===== src/Graph/Edges.antt =====
-- Edges, paths, and what `add_edge` and `reverse_edges` do to them.
use myknowledgebase.Prelude.{
  ap, distinct, ◌≡◌, refl, inl, inr, Bool, true, false, List, [], ◌∷◌, Memᴰ, arith, Eq, ◌==◌,
  contains, Bool-cases, ◌||◌, ◌&&◌, beq→eq, contains-add,
}
use myknowledgebase.Graph.{Adjacency, targets, add_edge, add_sources, reverse_edges}

module _ {ℓ} {K : Type ℓ} ⦃e : Eq K⦄ where
  -- `t` is a target of `s`.
  abbrev pub Edge : Adjacency K → K → K → Type ℓ
  Edge adj s t = Memᴰ t (targets adj s)

  abbrev pub edge : Adjacency K → K → K → Bool
  edge adj s t = contains (targets adj s) t

  pub data Trail (adj : Adjacency K) : K → K → Type ℓ where
    here : {s : K} → Trail adj s s
    step : {s t u : K} → Edge adj s t → Trail adj t u → Trail adj s u

  pub Trail-append : {adj : Adjacency K} {s t u : K} → Trail adj s t → Trail adj t u → Trail adj s u
  Trail-append here q = q
  Trail-append (step x p) q = step x (Trail-append p q)

  pub Trail-snoc : {adj : Adjacency K} {s t u : K} → Trail adj s t → Edge adj t u → Trail adj s u
  Trail-snoc p x = Trail-append p (step x here)

  pub edge-add_edge :
      (a b : K) (adj : Adjacency K) (s t : K)
      → edge (add_edge a b adj) s t ≡ (((a == s) && (b == t)) || edge adj s t)
  unfolding targets add_edge
  edge-add_edge a b [] s t = ground arith
  edge-add_edge a b ((j, ts) ∷ adj) s t = ground (
    arith,
    edge-add_edge a b adj s t,
    contains-add b t ts,
    e.test_iff j a,
    e.test_iff j s,
    e.test_iff a s,
  )

  -- Keys of an adjacency are pairwise different; `add_edge` keeps them so.
  abbrev pub sources : Adjacency K → List K
  sources [] = []
  sources ((j, ts) ∷ adj) = j ∷ sources adj

  contains-sources-add_edge :
      (a b : K) (adj : Adjacency K) (k : K)
      → contains (sources (add_edge a b adj)) k ≡ ((a == k) || contains (sources adj) k)
  unfolding add_edge
  contains-sources-add_edge a b [] k = refl
  contains-sources-add_edge a b ((j, ts) ∷ adj) k =
      ground
        (arith, contains-sources-add_edge a b adj k, e.test_iff j a, e.test_iff j k, e.test_iff a k)

  pub distinct-add_edge :
      (a b : K) (adj : Adjacency K)
      → distinct (sources adj) ≡ true
      → distinct (sources (add_edge a b adj)) ≡ true
  unfolding add_edge
  distinct-add_edge a b [] h = refl
  distinct-add_edge a b ((j, ts) ∷ adj) h = ground (
    arith,
    distinct-add_edge a b adj,
    contains-sources-add_edge a b adj j,
    e.test_iff a j,
    e.test_iff j a,
  )

  edge-add_sources :
      (s : K) (ts : List K) (rev : Adjacency K) (t x : K)
      → edge (add_sources s ts rev) t x ≡ (((s == x) && contains ts t) || edge rev t x)
  unfolding add_sources
  edge-add_sources s [] rev t x = ground arith
  edge-add_sources s (u ∷ ts) rev t x =
      ground (arith, edge-add_sources s ts (add_edge u s rev) t x, edge-add_edge u s rev t x)

  no_edge : (adj : Adjacency K) (s t : K) → contains (sources adj) s ≡ false → edge adj s t ≡ false
  unfolding targets
  no_edge [] s t h = refl
  no_edge ((j, ts) ∷ adj) s t h = ground (arith, no_edge adj s t)

  pub edge-reverse_edges :
      (adj rev : Adjacency K) (s t : K)
      → distinct (sources adj) ≡ true
      → edge (reverse_edges adj rev) t s ≡ (edge adj s t || edge rev t s)
  unfolding reverse_edges targets
  edge-reverse_edges [] rev s t h = refl
  edge-reverse_edges ((j, ts) ∷ adj) rev s t h = elim (Bool-cases (j == s)) [
    | inl p ↦ ground (
      arith,
      edge-reverse_edges adj (add_sources j ts rev) s t,
      edge-add_sources j ts rev t s,
      no_edge adj s t,
      ap (contains (sources adj)) (beq→eq j s p),
    )
    | inr q ↦
        ground
          (arith, edge-reverse_edges adj (add_sources j ts rev) s t, edge-add_sources j ts rev t s)
  ]
