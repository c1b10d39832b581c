-- ===== src/Prelude/Triples.antt =====
-- What a result ensures when it is no error, by the shape of the code that gives it.
use mathlib.Core.Path.{◌≡◌, refl, subst}
use mathlib.Core.Bool.{Bool, true, false}
use myknowledgebase.Prelude.Results.{Result, ok, err, ◌>>=◌, ◌>>◌, require, refuse}
use myknowledgebase.Prelude.Tests.{if◌then◌else◌}

pub data Ensures {ℓ κ μ} {E : Type ℓ} {A : Type κ} (P : A → Type μ)
    : Result E A → Type (ℓ ⊔ κ ⊔ μ) where
  raises : {e : E} → Ensures P (err e)
  returns : {a : A} → P a → Ensures P (ok a)

-- What every run that raises nothing gives.
pub of_runs {ℓ κ μ} :
    {E : Type ℓ} {A : Type κ} (P : A → Type μ) (r : Result E A)
    → ((a : A) → r ≡ ok a → P a)
    → Ensures P r
of_runs P (ok a) f = returns (f a refl)
of_runs P (err e) f = raises

pub ensured {ℓ κ μ} :
    {E : Type ℓ} {A : Type κ} {P : A → Type μ} {r : Result E A} {a : A}
    → Ensures P r
    → r ≡ ok a
    → P a
ensured {P = P} (returns p) h = subst P (cc) p
ensured raises h = cc

module _ {ℓ κ μ} {E : Type ℓ} {A : Type κ} (P : A → Type μ) where
  pub require-Ensures :
      (b : Bool) (e : E) (r : Result E A) → (b ≡ true → Ensures P r) → Ensures P (require b e >> r)
  require-Ensures true e r p = p refl
  require-Ensures false e r p = raises

  pub refuse-Ensures :
      (b : Bool) (e : E) (r : Result E A) → (b ≡ false → Ensures P r) → Ensures P (refuse b e >> r)
  refuse-Ensures true e r p = raises
  refuse-Ensures false e r p = p refl

  pub check-Ensures : (m : Result E (Unit {0})) (r : Result E A) → Ensures P r → Ensures P (m >> r)
  check-Ensures (ok a) r p = p
  check-Ensures (err e) r p = raises

pub then-Ensures {ℓ κ μ ν} :
    {E : Type ℓ} {A : Type κ} {B : Type κ} (Q : B → Type ν) (P : A → Type μ) (m : Result E B)
    (f : B → Result E A)
    → Ensures Q m
    → ((b : B) → Q b → Ensures P (f b))
    → Ensures P (m >>= f)
then-Ensures Q P (ok b) f (returns q) g = g b q
then-Ensures Q P (err e) f q g = raises

module _ {ℓ μ} {B : Type ℓ} (P : B → Type μ) where
  pub if-both : (b : Bool) (x y : B) → (b ≡ true → P x) → (b ≡ false → P y) → P (if b then x else y)
  if-both true x y f g = f refl
  if-both false x y f g = g refl
