-- ===== src/Prelude/Equality.antt =====
-- Equality tests as an interface, with an instance for each type of key that the code compares.
use Prim.Native.Nat.{ℕ}
use Prim.Native.String.{String}
use mathlib.Core.Path.{◌≡◌, refl}
use mathlib.Core.Logic.{◌↔◌, ◌≢◌}
use mathlib.Core.Bool.{Bool, true, false, ◌&&◌}
use mathlib.Core.Option.{Option, none, some}
use native.Mathlib.Omega.{arith}
use text.Mathlib.Text.{◌==◌ as str_eq}
use text.Mathlib.TextEquality.{eq_iff}
use myknowledgebase.Prelude.Tests.{nat_beq, nat_beq_iff}

pub record Eq {ℓ} (A : Type ℓ) : Type ℓ where
  pub test : A → A → Bool
  pub test_iff : (a b : A) → (test a b ≡ true) ↔ (a ≡ b)

infix 50 ◌==◌
abbrev pub ◌==◌ {ℓ} : {A : Type ℓ} ⦃e : Eq A⦄ → A → A → Bool
◌==◌ ⦃e⦄ = e.test

abbrev pub bool_beq : Bool → Bool → Bool
bool_beq true true = true
bool_beq false false = true
bool_beq _ _ = false

pub bool_beq_iff : (a b : Bool) → (bool_beq a b ≡ true) ↔ (a ≡ b)
bool_beq_iff a b = ground arith

instance abbrev pub bool_eq : Eq Bool
bool_eq = record { test = bool_beq; test_iff = bool_beq_iff }

instance abbrev pub string_eq : Eq String
string_eq = record { test = str_eq; test_iff = eq_iff }

instance abbrev pub nat_eq : Eq ℕ
nat_eq = record { test = nat_beq; test_iff = nat_beq_iff }

module _ {ℓ} {A : Type ℓ} ⦃e : Eq A⦄ where
  pub beq_refl : (a : A) → (a == a) ≡ true
  beq_refl a = (e.test_iff a a).1 refl

  pub beq→eq : (a b : A) → (a == b) ≡ true → a ≡ b
  beq→eq a b h = (e.test_iff a b).0 h

  pub beq_false→ne : (a b : A) → (a == b) ≡ false → a ≢ b
  beq_false→ne a b h p = cc (h, (e.test_iff a b).1 p)

  pub ne→beq_false : (a b : A) → a ≢ b → (a == b) ≡ false
  ne→beq_false a b h = ground (arith, e.test_iff a b)

module _ {ℓ κ} {A : Type ℓ} {B : Type κ} ⦃e : Eq A⦄ ⦃f : Eq B⦄ where
  abbrev pub pair_beq : A × B → A × B → Bool
  pair_beq (a, b) (c, d) = (a == c) && (b == d)

  pub pair_beq_iff : (p q : A × B) → (pair_beq p q ≡ true) ↔ (p ≡ q)
  pair_beq_iff (a, b) (c, d) = ground (arith, e.test_iff a c, f.test_iff b d)

  instance abbrev pub pair_eq : Eq (A × B)
  pair_eq = record { test = pair_beq; test_iff = pair_beq_iff }

module _ {ℓ} {A : Type ℓ} ⦃e : Eq A⦄ where
  abbrev pub option_beq : Option A → Option A → Bool
  option_beq none none = true
  option_beq (some a) (some b) = a == b
  option_beq _ _ = false

  pub option_beq_iff : (p q : Option A) → (option_beq p q ≡ true) ↔ (p ≡ q)
  option_beq_iff none none = ground arith
  option_beq_iff (some a) (some b) = ground (arith, e.test_iff a b)
  option_beq_iff none (some b) = ground arith
  option_beq_iff (some a) none = ground arith

  instance abbrev pub option_eq : Eq (Option A)
  option_eq = record { test = option_beq; test_iff = option_beq_iff }

-- The equality test of a type whose equality is decidable.
module _ {ℓ} {A : Type ℓ} (dec : Discrete A) where
  abbrev pub dec_beq : A → A → Bool
  dec_beq a b = elim (dec a b) [ yes p ↦ true | no p ↦ false ]

  pub dec_beq_iff : (a b : A) → (dec_beq a b ≡ true) ↔ (a ≡ b)
  dec_beq_iff a b = by_cases (dec a b)
    where
      by_cases : (d : Dec (a ≡ b)) → ((elim d [ yes p ↦ true | no p ↦ false ]) ≡ true) ↔ (a ≡ b)
      by_cases (yes p) = (λ h. p, λ h. refl)
      by_cases (no p) = (λ h. cc, λ h. absurd (p h))

  abbrev pub of_discrete : Eq A
  of_discrete = record { test = dec_beq; test_iff = dec_beq_iff }
