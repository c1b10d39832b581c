-- ===== src/Graph/Visit.antt =====
-- What a successful depth-first `visit` leaves in the marks.
use myknowledgebase.Prelude.{
  ℕ, zero, suc, ◌≡◌, refl, ◌⊎◌, inl, inr, Option, none, some, List, [], ◌∷◌, Memᴰ, arith, Eq, ◌==◌,
  Bool-cases, if◌then◌else◌, Result, ok, >>=-eq-ok, lookup, subst, beq→eq, beq_refl,
}
use myknowledgebase.Graph.{
  Adjacency, Mark, visiting, visited, Marks, Trouble, targets, visit_each, visit,
}
use myknowledgebase.Graph.Edges.{Edge}

pub mark_cases : (m : Option Mark) → (m ≡ none) ⊎ ((m ≡ some visiting) ⊎ (m ≡ some visited))
mark_cases none = inl refl
mark_cases (some visiting) = inr (inl refl)
mark_cases (some visited) = inr (inr refl)

module _ {ℓ} {K : Type ℓ} ⦃e : Eq K⦄ where
  pub lookup-cons_self : (k : K) (m : Mark) (st : Marks K) → lookup ((k, m) ∷ st) k ≡ some m
  lookup-cons_self k m st = ground (arith, beq_refl k)

  pub lookup-cons :
      (k x : K) (m : Mark) (st : Marks K)
      → lookup ((k, m) ∷ st) x ≡ (if k == x then some m else lookup st x)
  lookup-cons k x m st = refl

  -- From `st` to `st'` nothing loses its mark, and the keys under visit are the same.
  pub record Grows (st st' : Marks K) : Type ℓ where
    pub kept : (x : K) → lookup st x ≡ some visited → lookup st' x ≡ some visited
    pub open_kept : (x : K) → lookup st x ≡ some visiting → lookup st' x ≡ some visiting
    pub no_new_open : (x : K) → lookup st' x ≡ some visiting → lookup st x ≡ some visiting

  pub Grows-refl : (st : Marks K) → Grows st st
  Grows-refl st = record { kept = λ x h. h; open_kept = λ x h. h; no_new_open = λ x h. h }

  pub Grows-trans : {a b c : Marks K} → Grows a b → Grows b c → Grows a c
  Grows-trans g h = record {
    kept = λ x m. h.kept x (g.kept x m);
    open_kept = λ x m. h.open_kept x (g.open_kept x m);
    no_new_open = λ x m. g.no_new_open x (h.no_new_open x m);
  }

  -- Closing `k` after its targets were visited.
  pub Grows-close :
      (k : K) (st st' : Marks K)
      → lookup st k ≡ none
      → Grows ((k, visiting) ∷ st) st'
      → Grows st ((k, visited) ∷ st')
  Grows-close k st st' new g = record {
    kept = λ x m. ground (arith, e.test_iff k x, g.kept x);
    open_kept = λ x m. ground (arith, e.test_iff k x, g.open_kept x);
    no_new_open = λ x m. ground (arith, e.test_iff k x, g.no_new_open x);
  }

  -- One call that succeeds: the key was done, or it is closed after its targets.
  pub data Visited (f : ℕ) (adj : Adjacency K) (st : Marks K) (k : K) (st' : Marks K) : Type ℓ where
    done : lookup st k ≡ some visited → st' ≡ st → Visited f adj st k st'
    closed :
        (mid : Marks K)
        → lookup st k ≡ none
        → visit_each (visit f adj) (targets adj k) ((k, visiting) ∷ st) ≡ ok mid
        → st' ≡ (k, visited) ∷ mid
        → Visited f adj st k st'

  pub visit-Visited :
      (f : ℕ) (adj : Adjacency K) (st : Marks K) (k : K) {st' : Marks K}
      → visit (suc f) adj st k ≡ ok st'
      → Visited f adj st k st'
  unfolding visit
  visit-Visited f adj st k {st'} h = elim (mark_cases (lookup st k)) [
    | inl new ↦
        let r =
          >>=-eq-ok (visit_each (visit f adj) (targets adj k) ((k, visiting) ∷ st)) _
            (rw (new, visit) at h) in
        closed r.0 new r.1 (ground arith)
    | inr (inl open_now) ↦ cc (rw (open_now, visit) at h)
    | inr (inr old) ↦ done old (cc (rw (old, visit) at h))
  ]

  pub no_fuel :
      (adj : Adjacency K) (st : Marks K) (k : K) {st' : Marks K} → ¬ (visit zero adj st k ≡ ok st')
  unfolding visit
  no_fuel adj st k h = cc

  each-Grows :
      (go : Marks K → K → Result Trouble (Marks K))
      → ((st : Marks K) (k : K) (st' : Marks K) → go st k ≡ ok st' → Grows st st')
      → (ts : List K) (st : Marks K) {st' : Marks K} → visit_each go ts st ≡ ok st'
      → Grows st st'
  unfolding visit_each
  each-Grows go grow [] st {st'} h = subst (Grows st) (cc) (Grows-refl st)
  each-Grows go grow (t ∷ ts) st h =
      let r = >>=-eq-ok (go st t) (visit_each go ts) h in
      Grows-trans (grow st t r.0 r.1) (each-Grows go grow ts r.0 r.2)

  pub visit-Grows :
      (f : ℕ) (adj : Adjacency K) (st : Marks K) (k : K) (st' : Marks K)
      → visit f adj st k ≡ ok st'
      → Grows st st'
  visit-Grows zero adj st k st' h = absurd (no_fuel _ st k h)
  visit-Grows (suc f) adj st k st' h = elim (visit-Visited f adj st k h) [
    | done m p ↦ rw p (Grows-refl st)
    | closed mid new r p ↦ rw p (
        Grows-close k st mid new
          (each-Grows (visit f adj) (visit-Grows f adj) (targets adj k) ((k, visiting) ∷ st) r))
  ]

  pub each_visit-Grows :
      (f : ℕ) (adj : Adjacency K) (ts : List K) (st : Marks K) {st' : Marks K}
      → visit_each (visit f adj) ts st ≡ ok st'
      → Grows st st'
  each_visit-Grows f adj = each-Grows (visit f adj) (visit-Grows f adj)

  -- The key that was asked for ends visited.
  pub visit-visited :
      (f : ℕ) (adj : Adjacency K) (st : Marks K) (k : K) {st' : Marks K}
      → visit f adj st k ≡ ok st'
      → lookup st' k ≡ some visited
  visit-visited zero adj st k h = absurd (no_fuel _ st k h)
  visit-visited (suc f) adj st k h = elim (visit-Visited f adj st k h) [
    | done m p ↦ rw p m
    | closed mid new r p ↦ rw p (lookup-cons_self k visited mid)
  ]

  pub each-visited :
      (f : ℕ) (adj : Adjacency K) (ts : List K) (st : Marks K) {st' : Marks K} {t : K}
      → visit_each (visit f adj) ts st ≡ ok st'
      → Memᴰ t ts
      → lookup st' t ≡ some visited
  unfolding visit_each
  each-visited f adj [] st h m = elim m [ ]
  each-visited f adj (x ∷ ts) st {st'} {t} h (Memᴰ.head p) =
      let r = >>=-eq-ok (visit f adj st x) (visit_each (visit f adj) ts) h in
      rw p ((each_visit-Grows f adj ts r.0 r.2).kept x (visit-visited f adj st x r.1))
  each-visited f adj (x ∷ ts) st h (Memᴰ.tail m) =
      let r = >>=-eq-ok (visit f adj st x) (visit_each (visit f adj) ts) h in
      each-visited f adj ts r.0 r.2 m

  -- A property of all visited keys that a key takes from its targets.
  abbrev pub AllVisited {κ} : (K → Type κ) → Marks K → Type (ℓ ⊔ κ)
  AllVisited P st = (x : K) → lookup st x ≡ some visited → P x

  pub AllVisited-open {κ} :
      (P : K → Type κ) (k : K) (st : Marks K) → AllVisited P st → AllVisited P ((k, visiting) ∷ st)
  AllVisited-open P k st h x m = h x (ground (arith, e.test_iff k x))

  pub AllVisited-close {κ} :
      (P : K → Type κ) (k : K) (st : Marks K)
      → P k
      → AllVisited P st
      → AllVisited P ((k, visited) ∷ st)
  AllVisited-close P k st now h x m = elim (Bool-cases (k == x)) [
    | inl p ↦ subst P (beq→eq k x p) now
    | inr q ↦ h x (rw q at m)
  ]

module _ {ℓ κ} {K : Type ℓ} ⦃e : Eq K⦄ (P : K → Type κ) (adj : Adjacency K)
    (from_targets : (k : K) → ((t : K) → Edge adj k t → P t) → P k) where
  each-AllVisited :
      (go : Marks K → K → Result Trouble (Marks K))
      → ((st : Marks K) (k : K) (st' : Marks K)
          → go st k ≡ ok st'
          → AllVisited P st
          → AllVisited P st')
      → (ts : List K) (st : Marks K) {st' : Marks K} → visit_each go ts st ≡ ok st'
      → AllVisited P st
      → AllVisited P st'
  unfolding visit_each
  each-AllVisited go keep_P [] st h a = subst (AllVisited P) (cc) a
  each-AllVisited go keep_P (t ∷ ts) st h a =
      let r = >>=-eq-ok (go st t) (visit_each go ts) h in
      each-AllVisited go keep_P ts r.0 r.2 (keep_P st t r.0 r.1 a)

  pub visit-AllVisited :
      (f : ℕ) (st : Marks K) (k : K) (st' : Marks K)
      → visit f adj st k ≡ ok st'
      → AllVisited P st
      → AllVisited P st'
  visit-AllVisited zero st k st' h a = absurd (no_fuel _ st k h)
  visit-AllVisited (suc f) st k st' h a = elim (visit-Visited f adj st k h) [
    | done m p ↦ rw p a
    | closed mid new r p ↦
        let a' =
          each-AllVisited (visit f adj) (visit-AllVisited f) (targets adj k) ((k, visiting) ∷ st) r
            (AllVisited-open P k st a) in
        rw p (
          AllVisited-close P k mid
            (from_targets k
              (λ t x. a' t (each-visited f adj (targets adj k) ((k, visiting) ∷ st) r x)))
            a')
  ]
