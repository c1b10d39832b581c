-- ===== src/Inference/Leases.antt =====
-- The gate of src/runtime/inference/facade.py as a bag of the leases that tasks have.
use myknowledgebase.Prelude.{
  beq→eq, ℕ, suc, ◌+◌, ◌-◌, ◌≤◌, ◌≡◌, refl, ap, ◌∙◌, subst, String, Bool, true, false, ◌||◌, Option,
  none, some, List, [], ◌∷◌, ◌==◌, nat_eq, string_eq, Result, ok, ◌>>=◌, length, ltb, leb, lookup,
  contains, if◌then◌else◌, arith, Bool-cases, inl, inr, fold_ok, beq_refl, ◌⊎◌,
}
use myknowledgebase.Inference.Gate.{
  Gate, new_gate, count_of, pop, put, is_full, try_acquire, counted_down, released, release,
}

-- How many leases of a capability there are.
abbrev pub copies : String → List String → ℕ
copies capability [] = 0
copies capability (c ∷ cs) = (if c == capability then 1 else 0) + copies capability cs

abbrev pub drop_one : String → List String → List String
drop_one capability [] = []
drop_one capability (c ∷ cs) =
    let rest = drop_one capability cs in if c == capability then cs else c ∷ rest

-- What tasks do: ask for a lease, or give back one that they have.
pub data Action : Type 0 where
  acquires gives_back : String → Action

abbrev pub given : String → Gate × Bool → List String → Gate × List String
given capability (g, true) held = (g, capability ∷ held)
given capability (g, false) held = (g, held)

-- A lease given back.
abbrev pub given_back : String → List String → Gate → Result String (Gate × List String)
given_back capability held g = do g' ← release capability g; ok (g', drop_one capability held)

unfoldable pub act : Gate × List String → Action → Result String (Gate × List String)
act (g, held) (acquires capability) = ok (given capability (try_acquire capability g) held)
act (g, held) (gives_back capability) =
    if contains held capability then given_back capability held g else ok (g, held)

abbrev pub AtMost : Option ℕ → ℕ → Type 0
AtMost none n = Unit
AtMost (some bound) n = n ≤ bound

-- The counts of the gate are those of the leases, and within its limits.
pub record Agrees (g : Gate) (held : List String) : Type 0 where
  pub total : g.global_in_flight ≡ length held
  pub each : (capability : String) → count_of capability g.by_capability ≡ copies capability held
  pub bounded : g.global_in_flight ≤ g.global_max
  pub limited :
      (capability : String)
      → AtMost (lookup g.capability_limits capability) (copies capability held)

lookup-pop :
    (c d : String) (counts : List (String × ℕ))
    → lookup (pop c counts) d ≡ (if c == d then none else lookup counts d)
lookup-pop c d [] = ground arith
lookup-pop c d ((e, n) ∷ counts) = elim (Bool-cases (e == c)) [
  | inl gone ↦ ground (
    arith,
    lookup-pop c d counts,
    string_eq.test_iff e c,
    string_eq.test_iff c d,
    string_eq.test_iff e d,
    gone,
  )
  | inr kept ↦ ground (
    arith,
    lookup-pop c d counts,
    string_eq.test_iff e c,
    string_eq.test_iff c d,
    string_eq.test_iff e d,
    kept,
  )
]

copies-contains : (c : String) (held : List String) → contains held c ≡ true → 1 ≤ copies c held
copies-contains c [] h = cc
copies-contains c (e ∷ held) h = ground (arith, copies-contains c held)

copies-drop_one :
    (c d : String) (held : List String)
    → contains held c ≡ true
    → copies d (drop_one c held) ≡ copies d held - (if c == d then 1 else 0)
copies-drop_one c d [] h = cc
copies-drop_one c d (e ∷ held) h = ground (
  arith,
  copies-drop_one c d held,
  string_eq.test_iff e c,
  string_eq.test_iff c d,
  string_eq.test_iff e d,
  copies-contains c held,
)

length-drop_one :
    (c : String) (held : List String)
    → contains held c ≡ true
    → length held ≡ suc (length (drop_one c held))
length-drop_one c [] h = cc
length-drop_one c (e ∷ held) h = ground (arith, length-drop_one c held)

count-put :
    (c d : String) (n : ℕ) (counts : List (String × ℕ))
    → count_of d (put c n counts) ≡ (if c == d then n else count_of d counts)
count-put c d n counts = ground (arith, lookup-pop c d counts)

count-counted_down :
    (c d : String) (counts : List (String × ℕ))
    → count_of d (counted_down c (count_of c counts) counts)
      ≡ (if c == d then count_of c counts - 1 else count_of d counts)
count-counted_down c d counts =
    ground (arith, lookup-pop c d counts, count-put c d (count_of c counts - 1) counts)

less-AtMost : (o : Option ℕ) {n m : ℕ} → m ≤ n → AtMost o n → AtMost o m
less-AtMost none l h = tt
less-AtMost (some bound) l h = omega arith

AtMost-full : (o : Option ℕ) (n : ℕ) → is_full o n ≡ false → AtMost o (n + 1)
AtMost-full none n h = tt
AtMost-full (some bound) n h = ground arith

pub try_acquire-Agrees :
    (c : String) (g : Gate) (held : List String)
    → Agrees g held
    → Agrees (given c (try_acquire c g) held).0 (given c (try_acquire c g) held).1
unfolding try_acquire
try_acquire-Agrees c g held a =
    elim (Bool-cases (
      leb g.global_max g.global_in_flight
      || is_full (lookup g.capability_limits c) (count_of c g.by_capability))) [
        | inl full ↦ rw full a
        | inr free ↦ rw free (record {
          total = ap (λ n. n + 1) a.total ∙ omega arith;
          each = λ d.
              count-put c d (count_of c g.by_capability + 1) g.by_capability
              ∙ (ground (arith, a.each c, a.each d, string_eq.test_iff c d));
          bounded = ground arith;
          limited = λ d. limited_after d (Bool-cases (c == d)) free;
        })
      ]
  where
    limited_after :
        (d : String)
        → ((c == d) ≡ true) ⊎ ((c == d) ≡ false)
        → (leb g.global_max g.global_in_flight
            || is_full (lookup g.capability_limits c) (count_of c g.by_capability))
          ≡ false
        → AtMost (lookup g.capability_limits d) (copies d (c ∷ held))
    limited_after d (inl same) free =
        subst (λ x. AtMost (lookup g.capability_limits x) (copies x (c ∷ held))) (beq→eq c d same)
          (less-AtMost (lookup g.capability_limits c) (ground (arith, a.each c, beq_refl c)) (
            AtMost-full (lookup g.capability_limits c) (count_of c g.by_capability) (ground arith)))
    limited_after d (inr other) free =
        less-AtMost (lookup g.capability_limits d) (ground (arith, other)) (a.limited d)

pub release-Agrees :
    (c : String) (g : Gate) (held : List String)
    → Agrees g held
    → contains held c ≡ true
    → (g' : Gate) × (release c g ≡ ok g') × Agrees g' (drop_one c held)
unfolding release
release-Agrees c g held a h =
    let one = copies-contains c held h in
    let shorter = length-drop_one c held h in
    let balanced : (ltb g.global_in_flight 1 || ltb (count_of c g.by_capability) 1) ≡ false =
      ground (arith, a.total, a.each c) in
    (
      released c g,
      (rw balanced refl),
      record {
        total = omega (arith, a.total);
        each = λ d.
            count-counted_down c d g.by_capability
            ∙ (ground
                (arith, a.each c, a.each d, string_eq.test_iff c d, copies-drop_one c d held h));
        bounded = omega (arith, a.bounded);
        limited = λ d.
            less-AtMost (lookup g.capability_limits d) (ground (arith, copies-drop_one c d held h))
              (a.limited d);
      },
    )

act-Agrees :
    (g : Gate) (held : List String) (action : Action)
    → Agrees g held
    → (s : Gate × List String) × (act (g, held) action ≡ ok s) × Agrees s.0 s.1
unfolding act
act-Agrees g held (acquires c) a = (_, refl, try_acquire-Agrees c g held a)
act-Agrees g held (gives_back c) a = elim (Bool-cases (contains held c)) [
  | inr not_held ↦ ((g, held), (rw not_held refl), a)
  | inl is_held ↦
      let r = release-Agrees c g held a is_held in
      ((r.0, drop_one c held), (rw (is_held, r.1) refl), r.2)
]

run-Agrees :
    (actions : List Action) (g : Gate) (held : List String)
    → Agrees g held
    → (s : Gate × List String) × (fold_ok act (g, held) actions ≡ ok s) × Agrees s.0 s.1
run-Agrees [] g held a = ((g, held), refl, a)
run-Agrees (action ∷ actions) g held a =
    let first = act-Agrees g held action a in
    let rest = run-Agrees actions first.0.0 first.0.1 first.2 in
    (rest.0, (rw first.1 rest.1), rest.2)

AtMost-none : (o : Option ℕ) → AtMost o 0
AtMost-none none = tt
AtMost-none (some bound) = omega arith

new_gate-Agrees :
    (global_max : ℕ) (limits : List (String × ℕ)) {g : Gate}
    → new_gate global_max limits ≡ some g
    → Agrees g []
unfolding new_gate
new_gate-Agrees global_max limits {g} h =
    let fresh : record {
      global_max = global_max;
      capability_limits = limits;
      global_in_flight = 0;
      by_capability = [];
    }
        ≡ g =
      ground arith in
    subst (λ x. Agrees x []) fresh
      (record {
        total = refl;
        each = λ c. refl;
        bounded = omega arith;
        limited = λ c. AtMost-none (lookup limits c);
      })

-- Whatever leases tasks ask for and give back, a new gate never raises, and it then counts, in all and
-- for each capability, exactly the leases that tasks have, which stay within its limits.
pub acts-Agrees :
    (global_max : ℕ) (limits : List (String × ℕ)) (actions : List Action) {g : Gate}
    → new_gate global_max limits ≡ some g
    → (s : Gate × List String) × (fold_ok act (g, []) actions ≡ ok s) × Agrees s.0 s.1
acts-Agrees global_max limits actions {g} h =
    run-Agrees actions g [] (new_gate-Agrees global_max limits h)
