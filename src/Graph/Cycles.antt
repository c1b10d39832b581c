-- ===== src/Graph/Cycles.antt =====
-- `visit` accepts exactly the graphs with no cycle that the start reaches.
use mathlib.Core.WellFounded.{Acc}
use myknowledgebase.Prelude.{
  ℕ, zero, suc, ◌≡◌, refl, inl, inr, some, List, [], ◌∷◌, Memᴰ, Eq, ◌==◌, Bool-cases, ok, err,
  >>=-eq-err, lookup, subst, beq→eq,
}
use myknowledgebase.Graph.{Adjacency, visiting, Marks, cycle, targets, visit_each, visit}
use myknowledgebase.Graph.Edges.{Edge, Trail, here, step, Trail-snoc}
use myknowledgebase.Graph.Visit.{
  mark_cases, visit-visited, visit-AllVisited, Grows, Grows-refl, Grows-trans, visit-Grows,
}

module _ {ℓ} {K : Type ℓ} ⦃e : Eq K⦄ where
  -- A path with at least one edge.
  abbrev pub Path1 : Adjacency K → K → K → Type ℓ
  Path1 adj s u = (t : K) × Edge adj s t × Trail adj t u

  -- No cycle can be reached from `k`.
  abbrev pub IsAcyclicFrom : Adjacency K → K → Type ℓ
  IsAcyclicFrom adj k = (x : K) → Trail adj k x → ¬ Path1 adj x x

  abbrev Below : Adjacency K → K → K → Type ℓ
  Below adj t s = Edge adj s t

  Path1-snoc : {adj : Adjacency K} (s : K) {t u : K} → Path1 adj s t → Edge adj t u → Path1 adj s u
  Path1-snoc s (m, x, p) y = (m, x, Trail-snoc p y)

  turn : {adj : Adjacency K} {k t : K} → Edge adj k t → Trail adj t k → Path1 adj t t
  turn {k = k} x here = (k, x, here)
  turn x (step {t = u} y p) = (u, y, Trail-snoc p x)

  Acc-no_cycle : (adj : Adjacency K) (k : K) → Acc (Below adj) k → ¬ Path1 adj k k
  Acc-no_cycle adj k (Acc.intro _ smaller) (t, x, p) = Acc-no_cycle adj t (smaller t x) (turn x p)

  Acc-path : (adj : Adjacency K) {s u : K} → Trail adj s u → Acc (Below adj) s → Acc (Below adj) u
  Acc-path adj here a = a
  Acc-path adj (step {t = t} x p) (Acc.intro _ smaller) = Acc-path adj p (smaller t x)

  -- A walk from empty marks that succeeds has seen no cycle.
  pub visit-IsAcyclicFrom :
      (f : ℕ) (adj : Adjacency K) (k : K) {st : Marks K}
      → visit f adj [] k ≡ ok st
      → IsAcyclicFrom adj k
  visit-IsAcyclicFrom f adj k {st} h x p = Acc-no_cycle adj x (
      Acc-path adj p (
        visit-AllVisited (Acc (Below adj)) adj (λ j below. Acc.intro j below) f [] k st h
          (λ y m. cc) k (visit-visited f adj [] k h)))

  -- Every key under visit leads to `k`.
  abbrev OpenAbove : Adjacency K → Marks K → K → Type ℓ
  OpenAbove adj st k = (v : K) → lookup st v ≡ some visiting → Path1 adj v k

  OpenAbove-target :
      {adj : Adjacency K} {st mid : Marks K} {k t : K}
      → OpenAbove adj st k
      → Grows ((k, visiting) ∷ st) mid
      → Edge adj k t
      → OpenAbove adj mid t
  OpenAbove-target {adj = adj} {k = k} {t = t} above g x v m = elim (Bool-cases (k == v)) [
    | inl p ↦ (t, subst (λ w. Edge adj w t) (beq→eq k v p) x, here)
    | inr q ↦ Path1-snoc v (above v (rw q at (g.no_new_open v m))) x
  ]

  -- A cycle that the root reaches.
  abbrev pub CycleFrom : Adjacency K → K → Type ℓ
  CycleFrom adj root = (x : K) × Trail adj root x × Path1 adj x x

  each-cycle :
      (f : ℕ) (adj : Adjacency K) (root k : K) (st : Marks K)
      → ((mid : Marks K) (t : K)
          → Trail adj root t
          → OpenAbove adj mid t
          → visit f adj mid t ≡ err cycle
          → CycleFrom adj root)
      → Trail adj root k
      → OpenAbove adj st k
      → (ts : List K) (mid : Marks K) → ((t : K) → Memᴰ t ts → Edge adj k t)
      → Grows ((k, visiting) ∷ st) mid
      → visit_each (visit f adj) ts mid ≡ err cycle
      → CycleFrom adj root
  unfolding visit_each
  each-cycle f adj root k st found p above [] mid sub g h = cc
  each-cycle f adj root k st found p above (t ∷ ts) mid sub g h =
      elim (>>=-eq-err (visit f adj mid t) (visit_each (visit f adj) ts) h) [
        | inl q ↦
            found mid t (Trail-snoc p (sub t (Memᴰ.head refl)))
              (OpenAbove-target above g (sub t (Memᴰ.head refl))) q
        | inr r ↦
            each-cycle f adj root k st found p above ts r.0 (λ u m. sub u (Memᴰ.tail m))
              (Grows-trans g (visit-Grows f adj mid t r.0 r.1)) r.2
      ]

  visit-cycle :
      (f : ℕ) (adj : Adjacency K) (root : K) (st : Marks K) (k : K)
      → Trail adj root k
      → OpenAbove adj st k
      → visit f adj st k ≡ err cycle
      → CycleFrom adj root
  unfolding visit
  visit-cycle zero adj root st k p above h = cc
  visit-cycle (suc f) adj root st k p above h = elim (mark_cases (lookup st k)) [
    | inl new ↦
        each-cycle f adj root k st (λ mid t q above' r. visit-cycle f adj root mid t q above' r) p
          above (targets adj k) ((k, visiting) ∷ st) (λ t m. m) (Grows-refl _)
          (elim (>>=-eq-err (visit_each (visit f adj) (targets adj k) ((k, visiting) ∷ st)) _
            (rw (new, visit) at h)) [ inl q ↦ q | inr r ↦ cc (r.2) ])
    | inr (inl open_now) ↦ (k, p, above k open_now)
    | inr (inr old) ↦ cc (rw (old, visit) at h)
  ]

  -- A walk from empty marks that meets a key under visit shows a cycle.
  pub visit-CycleFrom :
      (f : ℕ) (adj : Adjacency K) (root : K) → visit f adj [] root ≡ err cycle → CycleFrom adj root
  visit-CycleFrom f adj root h = visit-cycle f adj root [] root here (λ v m. cc) h
