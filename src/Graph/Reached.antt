-- ===== src/Graph/Reached.antt =====
-- The keys that a successful `visit` marks are those that a path from the start reaches.
use myknowledgebase.Prelude.{
  ap, ℕ, zero, suc, ◌≡◌, refl, sym, inl, inr, true, none, some, List, [], ◌∷◌, Memᴰ, arith, Eq,
  ◌==◌, Bool-cases, ok, >>=-eq-ok, lookup, subst, beq→eq, ◌↔◌, is_some,
}
use myknowledgebase.Graph.{Adjacency, Mark, visiting, visited, Marks, targets, visit_each, visit}
use myknowledgebase.Graph.Edges.{Edge, Trail, here, step, Trail-snoc}
use myknowledgebase.Graph.Visit.{visit-Visited, done, closed, visit-visited, each-visited, no_fuel}

module _ {ℓ} {K : Type ℓ} ⦃e : Eq K⦄ where
  -- Every marked key lies on a path from the root.
  abbrev Rooted : Adjacency K → K → Marks K → Type ℓ
  Rooted adj root st = (x : K) → is_some (lookup st x) ≡ true → Trail adj root x

  Rooted-cons :
      (adj : Adjacency K) (root k : K) (m : Mark) (st : Marks K)
      → Trail adj root k
      → Rooted adj root st
      → Rooted adj root ((k, m) ∷ st)
  Rooted-cons adj root k m st p r x h = elim (Bool-cases (k == x)) [
    | inl q ↦ subst (Trail adj root) (beq→eq k x q) p
    | inr q ↦ r x (rw q at h)
  ]

  each-Rooted :
      (f : ℕ) (adj : Adjacency K) (root k : K)
      → ((st : Marks K) (t : K) (st' : Marks K)
          → Trail adj root t
          → Rooted adj root st
          → visit f adj st t ≡ ok st'
          → Rooted adj root st')
      → Trail adj root k
      → (ts : List K) (st : Marks K) {st' : Marks K} → ((t : K) → Memᴰ t ts → Edge adj k t)
      → Rooted adj root st
      → visit_each (visit f adj) ts st ≡ ok st'
      → Rooted adj root st'
  unfolding visit_each
  each-Rooted f adj root k go p [] st sub r h = subst (Rooted adj root) (cc) r
  each-Rooted f adj root k go p (t ∷ ts) st sub r h =
      let s = >>=-eq-ok (visit f adj st t) (visit_each (visit f adj) ts) h in
      each-Rooted f adj root k go p ts s.0 (λ u m. sub u (Memᴰ.tail m))
        (go st t s.0 (Trail-snoc p (sub t (Memᴰ.head refl))) r s.1) s.2

  visit-Rooted :
      (f : ℕ) (adj : Adjacency K) (root : K) (st : Marks K) (k : K) (st' : Marks K)
      → Trail adj root k
      → Rooted adj root st
      → visit f adj st k ≡ ok st'
      → Rooted adj root st'
  visit-Rooted zero adj root st k st' p r h = absurd (no_fuel adj st k h)
  visit-Rooted (suc f) adj root st k st' p r h = elim (visit-Visited f adj st k h) [
    | done m q ↦ rw q r
    | closed mid new s q ↦ rw q (
        Rooted-cons adj root k visited mid p (
          each-Rooted f adj root k (λ a t b. visit-Rooted f adj root a t b) p (targets adj k)
            ((k, visiting) ∷ st) (λ t m. m) (Rooted-cons adj root k visiting st p r) s))
  ]

  -- The targets of a visited key are visited.
  abbrev Settled : Adjacency K → Marks K → Type ℓ
  Settled adj st =
      (x : K) → lookup st x ≡ some visited → (t : K) → Edge adj x t → lookup st t ≡ some visited

  Settled-open :
      (adj : Adjacency K) (k : K) (st : Marks K)
      → lookup st k ≡ none
      → Settled adj st
      → Settled adj ((k, visiting) ∷ st)
  Settled-open adj k st new s x m t y =
      ground (arith, e.test_iff k x, e.test_iff k t, s x (ground (arith, e.test_iff k x)) t y)

  Settled-close :
      (adj : Adjacency K) (k : K) (st : Marks K)
      → ((t : K) → Edge adj k t → lookup st t ≡ some visited)
      → Settled adj st
      → Settled adj ((k, visited) ∷ st)
  Settled-close adj k st now s x m t y = elim (Bool-cases (k == x)) [
    | inl q ↦ ground (arith, now t (subst (λ w. Edge adj w t) (sym (beq→eq k x q)) y))
    | inr q ↦ ground (arith, s x (rw q at m) t y)
  ]

  each-Settled :
      (f : ℕ) (adj : Adjacency K)
      → ((st : Marks K) (t : K) (st' : Marks K)
          → Settled adj st
          → visit f adj st t ≡ ok st'
          → Settled adj st')
      → (ts : List K) (st : Marks K) {st' : Marks K} → Settled adj st
      → visit_each (visit f adj) ts st ≡ ok st'
      → Settled adj st'
  unfolding visit_each
  each-Settled f adj go [] st s h = subst (Settled adj) (cc) s
  each-Settled f adj go (t ∷ ts) st s h =
      let r = >>=-eq-ok (visit f adj st t) (visit_each (visit f adj) ts) h in
      each-Settled f adj go ts r.0 (go st t r.0 s r.1) r.2

  visit-Settled :
      (f : ℕ) (adj : Adjacency K) (st : Marks K) (k : K) (st' : Marks K)
      → Settled adj st
      → visit f adj st k ≡ ok st'
      → Settled adj st'
  visit-Settled zero adj st k st' s h = absurd (no_fuel adj st k h)
  visit-Settled (suc f) adj st k st' s h = elim (visit-Visited f adj st k h) [
    | done m q ↦ rw q s
    | closed mid new r q ↦ rw q (
        Settled-close adj k mid (λ t y. each-visited f adj (targets adj k) ((k, visiting) ∷ st) r y)
          (each-Settled f adj (λ a t b. visit-Settled f adj a t b) (targets adj k)
            ((k, visiting) ∷ st) (Settled-open adj k st new s) r))
  ]

  Settled-path :
      (adj : Adjacency K) (st : Marks K) {x t : K}
      → Settled adj st
      → Trail adj x t
      → lookup st x ≡ some visited
      → lookup st t ≡ some visited
  Settled-path adj st s here m = m
  Settled-path adj st s (step {s = x} {t = t} y p) m = Settled-path adj st s p (s x m t y)

  -- `set(visit_state)` after `visit(start_key)`.
  pub visit_marks_reached :
      (f : ℕ) (adj : Adjacency K) (root : K) {st : Marks K}
      → visit f adj [] root ≡ ok st
      → (x : K) → (is_some (lookup st x) ≡ true) ↔ Trail adj root x
  visit_marks_reached f adj root {st} h x = (
    visit-Rooted f adj root [] root st here (λ y m. cc) h x,
    λ p. ap is_some (
        Settled-path adj st (visit-Settled f adj [] root st (λ y m. cc) h) p
          (visit-visited f adj [] root h)),
  )
