-- ===== src/Prelude/Results.antt =====
-- Code that returns or raises: a value, or the error that was raised.
use mathlib.Core.Path.{◌≡◌, refl}
use mathlib.Core.Logic.{◌⊎◌, inl, inr}
use mathlib.Core.Bool.{Bool, true, false}
use mathlib.Core.Option.{Option, none, some}
use mathlib.Core.List.{List, [], ◌∷◌, Memᴰ}
use mathlib.Core.Path.{subst}

pub data Result {ℓ κ} (E : Type ℓ) (A : Type κ) : Type (ℓ ⊔ κ) where
  ok : A → Result E A
  err : E → Result E A

infixl 5 ◌>>=◌ ◌>>◌
abbrev pub ◌>>=◌ {ℓ κ μ} :
    {E : Type ℓ} {A : Type κ} {B : Type μ} → Result E A → (A → Result E B) → Result E B
err reason >>= next = err reason
ok value >>= next = next value

abbrev pub ◌>>◌ {ℓ κ} : {E : Type ℓ} {B : Type κ} → Result E (Unit {0}) → Result E B → Result E B
first >> second = first >>= λ _. second

-- `if not test: raise e`
abbrev pub require {ℓ} : {E : Type ℓ} → Bool → E → Result E (Unit {0})
require true e = ok tt
require false e = err e

-- `if test: raise e`
abbrev pub refuse {ℓ} : {E : Type ℓ} → Bool → E → Result E (Unit {0})
refuse true e = err e
refuse false e = ok tt

pub ok_injective {ℓ κ} :
    {E : Type ℓ} {A : Type κ} {a b : A} → ◌≡◌ {A = Result E A} (ok a) (ok b) → a ≡ b
ok_injective h = cc

-- Inversions, for proofs where the parts stay shut.
pub >>=-eq-ok {ℓ κ μ} :
    {E : Type ℓ} {A : Type κ} {B : Type μ} (first : Result E A) (rest : A → Result E B) {result : B}
    → (first >>= rest) ≡ ok result
    → (value : A) × (first ≡ ok value) × (rest value ≡ ok result)
>>=-eq-ok (err reason) rest h = cc
>>=-eq-ok (ok value) rest h = (value, refl, h)

pub >>=-eq-err {ℓ κ μ} :
    {E : Type ℓ} {A : Type κ} {B : Type μ} (m : Result E A) (f : A → Result E B) {e : E}
    → (m >>= f) ≡ err e
    → (m ≡ err e) ⊎ ((a : A) × (m ≡ ok a) × (f a ≡ err e))
>>=-eq-err (ok a) f h = inr (a, refl, h)
>>=-eq-err (err e) f h = inl (cc)

pub >>-eq-ok {ℓ κ} :
    {E : Type ℓ} {B : Type κ} (m : Result E (Unit {0})) (k : Result E B) {b : B}
    → (m >> k) ≡ ok b
    → (m ≡ ok tt) × (k ≡ ok b)
>>-eq-ok (ok a) k h = (refl, h)
>>-eq-ok (err e) k h = cc

pub require-eq-ok {ℓ} : {E : Type ℓ} (b : Bool) (e : E) → require b e ≡ ok tt → b ≡ true
require-eq-ok true e h = refl
require-eq-ok false e h = cc

pub refuse-eq-ok {ℓ} : {E : Type ℓ} (b : Bool) (e : E) → refuse b e ≡ ok tt → b ≡ false
refuse-eq-ok true e h = cc
refuse-eq-ok false e h = refl

-- `if x is None: raise e`
abbrev pub of_option {ℓ κ} : {E : Type ℓ} {A : Type κ} → Option A → E → Result E A
of_option none e = err e
of_option (some a) e = ok a

-- `for x in xs: check(x)`
abbrev pub each {ℓ κ} :
    {E : Type ℓ} {A : Type κ} → (A → Result E (Unit {0})) → List A → Result E (Unit {0})
each check [] = ok tt
each check (x ∷ xs) = check x >> each check xs

-- `for x in xs: state = step(state, x)`
abbrev pub fold_ok {ℓ κ μ} :
    {E : Type ℓ} {S : Type κ} {A : Type μ} → (S → A → Result E S) → S → List A → Result E S
fold_ok step s [] = ok s
fold_ok step s (x ∷ xs) = step s x >>= λ s'. fold_ok step s' xs

pub of_option-eq-ok {ℓ κ} :
    {E : Type ℓ} {A : Type κ} (o : Option A) (e : E) {a : A} → of_option o e ≡ ok a → o ≡ some a
of_option-eq-ok none e h = cc
of_option-eq-ok (some b) e h = cc

pub each-mem {ℓ κ} :
    {E : Type ℓ} {A : Type κ} (check : A → Result E (Unit {0})) (xs : List A) {a : A}
    → each check xs ≡ ok tt
    → Memᴰ a xs
    → check a ≡ ok tt
each-mem check [] h m = elim m [ ]
each-mem check (x ∷ xs) h (Memᴰ.head p) = rw p (>>-eq-ok (check x) (each check xs) h).0
each-mem check (x ∷ xs) h (Memᴰ.tail m) =
    each-mem check xs (>>-eq-ok (check x) (each check xs) h).1 m

-- What every step keeps holds at the end of a loop that raises nothing.
pub fold_ok_inv {ℓ κ μ ν} :
    {E : Type ℓ} {S : Type κ} {A : Type μ} (P : S → Type ν) (step : S → A → Result E S)
    → ((s : S) (a : A) (s' : S) → P s → step s a ≡ ok s' → P s')
    → (xs : List A) (s : S) {s' : S} → P s
    → fold_ok step s xs ≡ ok s'
    → P s'
fold_ok_inv P step keeps [] s p h = subst P (cc) p
fold_ok_inv P step keeps (x ∷ xs) s p h =
    let r = >>=-eq-ok (step s x) (λ t. fold_ok step t xs) h in
    fold_ok_inv P step keeps xs r.0 (keeps s x r.0 p r.1) r.2

-- Every item of such a loop was taken by a step that raised nothing.
pub fold_ok-mem {ℓ κ μ} :
    {E : Type ℓ} {S : Type κ} {A : Type μ} (step : S → A → Result E S) (xs : List A) (s : S)
    {s' : S} {a : A}
    → fold_ok step s xs ≡ ok s'
    → Memᴰ a xs
    → (before : S) × (after : S) × (step before a ≡ ok after)
fold_ok-mem step [] s h m = elim m [ ]
fold_ok-mem step (x ∷ xs) s h (Memᴰ.head p) =
    let r = >>=-eq-ok (step s x) (λ t. fold_ok step t xs) h in (s, r.0, rw p r.1)
fold_ok-mem step (x ∷ xs) s h (Memᴰ.tail m) =
    let r = >>=-eq-ok (step s x) (λ t. fold_ok step t xs) h in fold_ok-mem step xs r.0 r.2 m
