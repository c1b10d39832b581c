-- ===== src/Graph/Coverage.antt =====
-- The coverage worklist finds exactly the keys from which a path leads to a terminal.
use myknowledgebase.Prelude.{
  Option-cases, ◌<◌, subst, beq_refl, ap, inr, inl, ℕ, zero, suc, ◌+◌, ◌≤◌, ◌≡◌, ◌≢◌, refl, true,
  false, Option, none, some, List, [], ◌∷◌, arith, Eq, ◌==◌, Bool-cases, ◌↔◌, if◌then◌else◌, length,
  contains, distinct, mem-contains, contains-mem, ◌||◌,
}
use myknowledgebase.Graph.{Adjacency, targets, reverse_edges, absorb, coverage}
use myknowledgebase.Graph.Edges.{edge, Trail, here, step, sources, edge-reverse_edges}

module _ {ℓ} {K : Type ℓ} ⦃e : Eq K⦄ where
  contains-absorb :
      (ss reached pending : List K) (x : K)
      → contains (absorb ss reached pending).0 x ≡ (contains ss x || contains reached x)
  unfolding absorb
  contains-absorb [] reached pending x = refl
  contains-absorb (s ∷ ss) reached pending x = elim (Bool-cases (contains reached s)) [
    | inl old ↦ ground (
      arith,
      contains-absorb ss reached pending x,
      e.test_iff s x,
      λ (r : s ≡ x). ap (contains reached) r,
    )
    | inr new ↦ ground (arith, contains-absorb ss (s ∷ reached) (s ∷ pending) x)
  ]

  pending_kept-absorb :
      (ss reached pending : List K) (x : K)
      → contains pending x ≡ true
      → contains (absorb ss reached pending).1 x ≡ true
  unfolding absorb
  pending_kept-absorb [] reached pending x h = h
  pending_kept-absorb (s ∷ ss) reached pending x h = elim (Bool-cases (contains reached s)) [
    | inl old ↦ ground (arith, pending_kept-absorb ss reached pending x h)
    | inr new ↦ ground (arith, pending_kept-absorb ss (s ∷ reached) (s ∷ pending) x (ground arith))
  ]

  -- What `absorb` adds to the reached keys it pushes.
  pending-absorb :
      (ss reached pending : List K) (x : K)
      → contains (absorb ss reached pending).0 x ≡ true
      → (contains reached x || contains (absorb ss reached pending).1 x) ≡ true
  unfolding absorb
  pending-absorb [] reached pending x h = ground arith
  pending-absorb (s ∷ ss) reached pending x h = elim (Bool-cases (contains reached s)) [
    | inl old ↦ ground (arith, pending-absorb ss reached pending x)
    | inr new ↦ ground (
      arith,
      pending-absorb ss (s ∷ reached) (s ∷ pending) x,
      pending_kept-absorb ss (s ∷ reached) (s ∷ pending) x,
    )
  ]

  absorbed_reached :
      (ss reached pending : List K)
      → ((x : K) → contains pending x ≡ true → contains reached x ≡ true)
      → (x : K) → contains (absorb ss reached pending).1 x ≡ true
      → contains (absorb ss reached pending).0 x ≡ true
  unfolding absorb
  absorbed_reached [] reached pending p x m = p x m
  absorbed_reached (s ∷ ss) reached pending p x m = elim (Bool-cases (contains reached s)) [
    | inl old ↦ ground (arith, absorbed_reached ss reached pending p x)
    | inr new ↦
        ground
          (arith, absorbed_reached ss (s ∷ reached) (s ∷ pending) (λ y m'. ground (arith, p y)) x)
  ]

  -- A property that passes backwards along edges holds of all that is found.
  module _ {κ} (P : K → Type κ) (rev : Adjacency K)
      (back : (t s : K) → edge rev t s ≡ true → P t → P s) where
    coverage_sound :
        (f : ℕ) (reached pending : List K) {out : List K}
        → coverage f rev reached pending ≡ some out
        → ((x : K) → contains reached x ≡ true → P x)
        → ((x : K) → contains pending x ≡ true → contains reached x ≡ true)
        → (x : K) → contains out x ≡ true
        → P x
    unfolding coverage
    coverage_sound zero reached [] h r p x m = r x (ground arith)
    coverage_sound (suc f) reached [] h r p x m = r x (ground arith)
    coverage_sound zero reached (t ∷ pending) h r p x m = absurd cc
    coverage_sound (suc f) reached (t ∷ pending) h r p x m =
        coverage_sound f (absorb (targets rev t) reached pending).0
          (absorb (targets rev t) reached pending).1 h
          (λ y m'. elim (Bool-cases (contains reached y)) [
            | inl old ↦ r y old
            | inr new ↦
                back t y (ground (arith, contains-absorb (targets rev t) reached pending y))
                  (r t (p t (ground (arith, beq_refl t))))
          ])
          (absorbed_reached (targets rev t) reached pending (λ y m'. p y (ground arith))) x m

  -- Every reached key is on the stack, or its sources are reached.
  abbrev Closed : Adjacency K → List K → List K → Type ℓ
  Closed rev reached pending =
      (t s : K)
      → contains reached t ≡ true
      → edge rev t s ≡ true
      → (contains pending t || contains reached s) ≡ true

  Closed-absorb :
      (rev : Adjacency K) (t : K) (reached pending : List K)
      → Closed rev reached (t ∷ pending)
      → Closed rev
          (absorb (targets rev t) reached pending).0
          (absorb (targets rev t) reached pending).1
  Closed-absorb rev t reached pending c u s m x = ground (
    arith,
    pending-absorb (targets rev t) reached pending u m,
    c u s,
    pending_kept-absorb (targets rev t) reached pending u,
    contains-absorb (targets rev t) reached pending s,
    e.test_iff t u,
    λ (r : t ≡ u). ap (λ w. edge rev w s) r,
  )

  coverage-Closed :
      (f : ℕ) (rev : Adjacency K) (reached pending : List K) {out : List K}
      → coverage f rev reached pending ≡ some out
      → Closed rev reached pending
      → Closed rev out []
  unfolding coverage
  coverage-Closed zero rev reached [] h c = subst (λ o. Closed rev o []) (cc) c
  coverage-Closed (suc f) rev reached [] h c = subst (λ o. Closed rev o []) (cc) c
  coverage-Closed zero rev reached (t ∷ pending) h c = absurd cc
  coverage-Closed (suc f) rev reached (t ∷ pending) h c =
      coverage-Closed f rev (absorb (targets rev t) reached pending).0
        (absorb (targets rev t) reached pending).1 h (Closed-absorb rev t reached pending c)

  coverage_keeps :
      (f : ℕ) (rev : Adjacency K) (reached pending : List K) {out : List K}
      → coverage f rev reached pending ≡ some out
      → (x : K) → contains reached x ≡ true
      → contains out x ≡ true
  unfolding coverage
  coverage_keeps zero rev reached [] h x m = ground arith
  coverage_keeps (suc f) rev reached [] h x m = ground arith
  coverage_keeps zero rev reached (t ∷ pending) h x m = cc
  coverage_keeps (suc f) rev reached (t ∷ pending) h x m =
      coverage_keeps f rev (absorb (targets rev t) reached pending).0
        (absorb (targets rev t) reached pending).1 h x
        (ground (arith, contains-absorb (targets rev t) reached pending x))

  -- How many of the keys are not reached.
  missing : List K → List K → ℕ
  missing [] reached = 0
  missing (k ∷ ks) reached = (if contains reached k then 0 else 1) + missing ks reached

  missing-le-length : (ks reached : List K) → missing ks reached ≤ length ks
  unfolding missing
  missing-le-length [] reached = omega arith
  missing-le-length (k ∷ ks) reached = ground (arith, missing-le-length ks reached)

  missing_mono : (ks reached : List K) (s : K) → missing ks (s ∷ reached) ≤ missing ks reached
  unfolding missing
  missing_mono [] reached s = omega arith
  missing_mono (k ∷ ks) reached s = ground (arith, missing_mono ks reached s)

  missing-lt :
      (ks reached : List K) (s : K)
      → contains ks s ≡ true
      → contains reached s ≡ false
      → missing ks (s ∷ reached) < missing ks reached
  unfolding missing
  missing-lt [] reached s m h = absurd cc
  missing-lt (k ∷ ks) reached s m h = elim (Bool-cases (k == s)) [
    | inl p ↦ ground (
      arith,
      missing_mono ks reached s,
      e.test_iff s k,
      e.test_iff k s,
      λ (r : k ≡ s). ap (contains reached) r,
    )
    | inr q ↦ ground (arith, missing-lt ks reached s)
  ]

  module _ (keys : List K) (rev : Adjacency K)
      (inside : (t s : K) → edge rev t s ≡ true → contains keys s ≡ true) where
    measure-absorb :
        (ss reached pending : List K)
        → ((s : K) → contains ss s ≡ true → contains keys s ≡ true)
        → length (absorb ss reached pending).1 + missing keys (absorb ss reached pending).0
          ≤ length pending + missing keys reached
    unfolding absorb
    measure-absorb [] reached pending sub = omega arith
    measure-absorb (s ∷ ss) reached pending sub = ground (
      arith,
      measure-absorb ss reached pending (λ x m. sub x (ground arith)),
      measure-absorb ss (s ∷ reached) (s ∷ pending) (λ x m. sub x (ground arith)),
      missing-lt keys reached s (sub s (ground (arith, beq_refl s))),
    )

    coverage_fuel :
        (f : ℕ) (reached pending : List K)
        → length pending + missing keys reached ≤ f
        → coverage f rev reached pending ≢ none
    unfolding coverage
    coverage_fuel zero reached [] h = cc
    coverage_fuel (suc f) reached [] h = cc
    coverage_fuel zero reached (t ∷ pending) h = absurd (omega arith)
    coverage_fuel (suc f) reached (t ∷ pending) h =
        coverage_fuel f (absorb (targets rev t) reached pending).0
          (absorb (targets rev t) reached pending).1
          (omega (arith, measure-absorb (targets rev t) reached pending (λ s m. inside t s m)))

  -- The keys from which a path leads to one of the terminals.
  abbrev pub Reaches : Adjacency K → List K → K → Type ℓ
  Reaches adj terminals x = (t : K) × (contains terminals t ≡ true) × Trail adj x t

  Closed-path :
      (adj : Adjacency K) (out : List K) {x t : K}
      → ((u v : K) → contains out v ≡ true → edge adj u v ≡ true → contains out u ≡ true)
      → Trail adj x t
      → contains out t ≡ true
      → contains out x ≡ true
  Closed-path adj out c here m = m
  Closed-path adj out c (step {s = x} {t = u} y p) m =
      c x u (Closed-path adj out c p m) (mem-contains (targets adj x) y)

  module _ (keys terminals : List K) (adj : Adjacency K)
      (inside : (s t : K) → edge adj s t ≡ true → contains keys s ≡ true)
      (uniform : distinct (sources adj) ≡ true) where
    abbrev pub covered : Option (List K)
    covered = coverage (length terminals + length keys) (reverse_edges adj []) terminals terminals

    back_edge : (t s : K) → edge (reverse_edges adj []) t s ≡ true → edge adj s t ≡ true
    unfolding targets
    back_edge t s h = ground (arith, edge-reverse_edges adj [] s t uniform)

    -- The worklist ends within the fuel, and its result has exactly the keys that reach a terminal.
    pub coverage_decides :
        (out : List K) × (covered ≡ some out)
        × ((x : K) → (contains out x ≡ true) ↔ Reaches adj terminals x)
    coverage_decides = elim (Option-cases covered) [
      | inl e ↦ absurd (
          coverage_fuel keys (reverse_edges adj []) (λ t s h. inside s t (back_edge t s h))
            (length terminals + length keys) terminals terminals
            (omega (arith, missing-le-length keys terminals)) e)
      | inr (out, e) ↦ (
        out,
        e,
        λ x. (
          coverage_sound (Reaches adj terminals) (reverse_edges adj [])
              (λ t s h (u, m, p). (u, m, step (contains-mem (targets adj s) t (back_edge t s h)) p))
              (length terminals + length keys) terminals terminals e (λ y m. (y, m, here))
              (λ y m. m) x,
          λ (t, m, p).
              Closed-path adj out
                (λ u v m' y. ground (
                  arith,
                  coverage-Closed (length terminals + length keys) (reverse_edges adj []) terminals
                      terminals e (λ a b m'' z. ground arith) v u m',
                  edge-reverse_edges adj [] u v uniform,
                ))
                p
                (coverage_keeps (length terminals + length keys) (reverse_edges adj []) terminals
                  terminals e t m),
        ),
      )
    ]
