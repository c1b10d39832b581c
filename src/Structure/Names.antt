-- ===== src/Structure/Names.antt =====
-- The identities of projection blocks: the f-string `g{granularity}:b{block_id:04d}` of
-- src/services/lsrag_compiler/adopt.py, and `_block_number` of models.py, which reads it back by the
-- pattern `^g[0-2]:b(\d{4})$`, here on ASCII.
use myknowledgebase.Prelude.{
  sym, inr, inl, Bool-cases, ℕ, zero, suc, ◌+◌, ◌*◌, ◌/◌, ◌%◌, ◌-◌, ◌≤◌, ◌<◌, ◌≡◌, refl, ◌∙◌, ap,
  Bool, ◌&&◌, [], ◌∷◌, ◌++◌, Result, ok, err, ltb, leb, nat_beq, arith, if◌then◌else◌,
}
use mathlib.Core.List.{append_assoc}
use myknowledgebase.Text.{Text}
use myknowledgebase.Text.Slices.{take, drop}
use myknowledgebase.Structure.Model.{Fault, alignment_invalid}

-- `str(n)`, on fuel: n rounds are enough.
unfoldable pub decimal : ℕ → ℕ → Text
decimal zero n = (48 + n) ∷ []
decimal (suc fuel) n =
    let more = decimal fuel (n / 10) ++ (48 + n % 10) ∷ [] in
    if ltb n 10 then (48 + n) ∷ [] else more

-- `f"{n:04d}"`: all digits, and four at least.
unfoldable pub padded : ℕ → Text
padded n =
    decimal (n / 1000) (n / 1000) ++ (48 + n / 100 % 10) ∷ (48 + n / 10 % 10) ∷ (48 + n % 10) ∷ []

unfoldable pub block_name : ℕ → ℕ → Text
block_name granularity block_id =
    b'g' ∷ decimal granularity granularity ++ (b':' ∷ b'b' ∷ padded block_id)

abbrev pub is_digit : ℕ → Bool
is_digit c = leb 48 c && leb c 57

abbrev pub digits_value : ℕ → ℕ → ℕ → ℕ → ℕ
digits_value p q r s = (p - 48) * 1000 + (q - 48) * 100 + (r - 48) * 10 + (s - 48)

-- `_block_number`
unfoldable pub block_number : Text → Result Fault ℕ
block_number (g ∷ n ∷ c ∷ b ∷ p ∷ q ∷ r ∷ s ∷ []) =
    if nat_beq g b'g'
      && (leb 48 n && leb n 50)
      && nat_beq c b':'
      && nat_beq b b'b'
      && (is_digit p && is_digit q && is_digit r && is_digit s)
    then ok (digits_value p q r s)
    else err alignment_invalid
block_number t = err alignment_invalid

decimal_digit : (fuel n : ℕ) → n < 10 → decimal fuel n ≡ (48 + n) ∷ []
unfolding decimal
decimal_digit zero n h = refl
decimal_digit (suc fuel) n h = ground arith

decimal_more :
    (fuel n : ℕ) → 10 ≤ n → decimal (suc fuel) n ≡ decimal fuel (n / 10) ++ (48 + n % 10) ∷ []
unfolding decimal
decimal_more fuel n h = ground arith

read_short :
    (g n : ℕ)
    → g ≤ 2
    → n < 10000
    → block_number (
        b'g'
        ∷ (48 + g)
        ∷ b':'
        ∷ b'b'
        ∷ (48 + n / 1000)
        ∷ (48 + n / 100 % 10)
        ∷ (48 + n / 10 % 10)
        ∷ (48 + n % 10)
        ∷ [])
      ≡ ok n
unfolding block_number
read_short g n hg hn = ground arith

decimal_some : (fuel n : ℕ) → (a : ℕ) × (rest : Text) × (decimal fuel n ≡ a ∷ rest)
decimal_some zero n = (48 + n, [], decimal_zero n)
  where
    decimal_zero : (n : ℕ) → decimal zero n ≡ (48 + n) ∷ []
    decimal_zero n = unfold decimal in refl
decimal_some (suc fuel) n = elim (Bool-cases (ltb n 10)) [
  | inl short ↦ (48 + n, [], decimal_digit (suc fuel) n (ground arith))
  | inr long ↦
      let r = decimal_some fuel (n / 10) in
      (
        r.0,
        r.1 ++ (48 + n % 10) ∷ [],
        decimal_more fuel n (ground arith) ∙ ap (λ (t : Text). t ++ (48 + n % 10) ∷ []) r.2,
      )
]

read_long :
    (g a w x y z : ℕ) (rest : Text)
    → block_number (b'g' ∷ g ∷ b':' ∷ b'b' ∷ a ∷ (rest ++ w ∷ x ∷ y ∷ z ∷ []))
      ≡ err alignment_invalid
unfolding block_number
read_long g a w x y z [] = refl
read_long g a w x y z (p ∷ []) = refl
read_long g a w x y z (p ∷ q ∷ []) = refl
read_long g a w x y z (p ∷ q ∷ r ∷ []) = refl
read_long g a w x y z (p ∷ q ∷ r ∷ s ∷ rest) = refl

-- The number of an adopted block is read back from its identity if it has at most four digits; a
-- block with a larger number has an identity that is refused.
pub block_number-block_name :
    (granularity n : ℕ)
    → granularity ≤ 2
    → (n < 10000 → block_number (block_name granularity n) ≡ ok n)
      × (10000 ≤ n → block_number (block_name granularity n) ≡ err alignment_invalid)
unfolding block_name padded
block_number-block_name g n hg = rw (decimal_digit g g (omega arith)) (
  λ short. rw (decimal_digit (n / 1000) (n / 1000) (omega arith)) (read_short g n hg short),
  λ long. many (n / 1000) _ _ _ (omega arith),
)
  where
    many :
        (m x y z : ℕ)
        → 10 ≤ m
        → block_number (b'g' ∷ (48 + g) ∷ (b':' ∷ b'b' ∷ (decimal m m ++ x ∷ y ∷ z ∷ [])))
          ≡ err alignment_invalid
    many zero x y z h = absurd (omega arith)
    many (suc m) x y z h =
        let r = decimal_some m (suc m / 10) in
        rw
          (
            decimal_more m (suc m) h,
            r.2,
            append_assoc r.1 ((48 + suc m % 10) ∷ []) (x ∷ y ∷ z ∷ []),
          )
          (read_long (48 + g) r.0 (48 + suc m % 10) x y z r.1)

-- The digits read as a number.
abbrev value : ℕ → Text → ℕ
value acc [] = acc
value acc (c ∷ t) = value (acc * 10 + (c - 48)) t

value-append : (acc : ℕ) (xs ys : Text) → value acc (xs ++ ys) ≡ value (value acc xs) ys
value-append acc [] ys = refl
value-append acc (x ∷ xs) ys = value-append (acc * 10 + (x - 48)) xs ys

value-decimal : (fuel n : ℕ) → n ≤ fuel → value 0 (decimal fuel n) ≡ n
value-decimal zero n h = rw (decimal_digit zero n (omega arith)) (omega arith)
value-decimal (suc fuel) n h = elim (Bool-cases (ltb n 10)) [
  | inl short ↦ rw (decimal_digit (suc fuel) n (ground arith)) (omega arith)
  | inr long ↦
      rw
        (
          decimal_more fuel n (ground arith),
          value-append 0 (decimal fuel (n / 10)) ((48 + n % 10) ∷ []),
          value-decimal fuel (n / 10) (ground arith),
        )
        (omega arith)
]

value-padded : (n : ℕ) → value 0 (padded n) ≡ n
unfolding padded
value-padded n =
    rw
      (
        value-append 0 (decimal (n / 1000) (n / 1000)) _,
        value-decimal (n / 1000) (n / 1000) (omega arith),
      )
      (omega arith)

abbrev tail : Text → Text
tail [] = []
tail (c ∷ t) = t

-- Two blocks with the same identity have the same granularity and the same number.
pub block_name_injective :
    (g h m n : ℕ) → g < 10 → h < 10 → block_name g m ≡ block_name h n → (g ≡ h) × (m ≡ n)
unfolding block_name
block_name_injective g h m n hg hh e =
    let same = rw (decimal_digit g g hg, decimal_digit h h hh) at e in
    (
      omega (arith, ap (λ t. value 0 (b'0' ∷ tail (take 2 t))) same),
      sym (value-padded m) ∙ ap (λ t. value 0 (drop 4 t)) same ∙ value-padded n,
    )
