-- ===== src/Text.antt =====
-- Texts as Python has them, sequences of code points, and the UTF-8 bytes that `str.encode` makes of
-- them and `bytes.decode` reads: what the span helpers `_span_text` and `_byte_offset` of
-- src/services/lsrag_compiler/models.py stand on.
pub mod Slices
pub mod Decoded
use myknowledgebase.Prelude.{
  ℕ, suc, ◌+◌, ◌-◌, ◌*◌, ◌/◌, ◌%◌, Bool, true, ◌&&◌, ◌||◌, not, Option, none, some, List, [], ◌∷◌,
  ◌++◌, ltb, leb, nat_beq, all, if◌then◌else◌,
}

abbrev pub Text : Type 0
Text = List ℕ

abbrev pub Bytes : Type 0
Bytes = List ℕ

-- A code point that UTF-8 encodes: no surrogate, and in the range of Unicode.
abbrev pub is_scalar : ℕ → Bool
is_scalar c = ltb c 0xD800 || (leb 0xE000 c && ltb c 0x110000)

abbrev pub IsScalar : Text → Type 0
IsScalar t = Path Bool (all is_scalar t) true

unfoldable pub char_bytes : ℕ → Bytes
char_bytes c =
    if ltb c 0x80
    then c ∷ []
    else if ltb c 0x800
    then (0xC0 + c / 0x40) ∷ (0x80 + c % 0x40) ∷ []
    else if ltb c 0x10000
    then (0xE0 + c / 0x1000) ∷ (0x80 + c / 0x40 % 0x40) ∷ (0x80 + c % 0x40) ∷ []
    else (0xF0 + c / 0x40000)
      ∷ (0x80 + c / 0x1000 % 0x40)
      ∷ (0x80 + c / 0x40 % 0x40)
      ∷ (0x80 + c % 0x40)
      ∷ []

unfoldable pub encode : Text → Bytes
encode [] = []
encode (c ∷ t) = char_bytes c ++ encode t

-- What the decoder has read of a character: how many bytes are missing, the bits so far, and the
-- least code point of that many bytes.
pub record Reading : Type 0 where
  pub missing : ℕ
  pub bits : ℕ
  pub least : ℕ

abbrev pub idle : Reading
idle = record { missing = 0; bits = 0; least = 0 }

abbrev pub is_idle : Reading → Bool
is_idle r = nat_beq r.missing 0

-- A lead byte.
unfoldable pub lead : ℕ → Option (Reading × Option ℕ)
lead b =
    if ltb b 0x80
    then some (idle, some b)
    else if leb 0xC0 b && ltb b 0xE0
    then some (record { missing = 1; bits = b - 0xC0; least = 0x80 }, none)
    else if leb 0xE0 b && ltb b 0xF0
    then some (record { missing = 2; bits = b - 0xE0; least = 0x800 }, none)
    else if leb 0xF0 b && ltb b 0xF8
    then some (record { missing = 3; bits = b - 0xF0; least = 0x10000 }, none)
    else none

-- A continuation byte.
unfoldable pub continue : Reading → ℕ → Option (Reading × Option ℕ)
continue r b =
    let bits = r.bits * 0x40 + (b - 0x80) in
    if leb 0x80 b && ltb b 0xC0
    then if nat_beq r.missing 1
      then if leb r.least bits && is_scalar bits then some (idle, some bits) else none
      else some (record { missing = r.missing - 1; bits = bits; least = r.least }, none)
    else none

unfoldable pub read_byte : Reading → ℕ → Option (Reading × Option ℕ)
unfolding lead continue
read_byte r b = if is_idle r then lead b else continue r b

abbrev pub emit : Option ℕ → Option Text → Option Text
emit none t = t
emit (some c) none = none
emit (some c) (some t) = some (c ∷ t)

-- Strict decoding, from a reading on: it gives nothing where Python raises `UnicodeDecodeError`.
unfoldable pub decode_from : Reading → Bytes → Option Text
unfolding read_byte
decode_from r [] = if is_idle r then some [] else none
decode_from r (b ∷ bs) = elim (read_byte r b) [
  | none ↦ none
  | some (next, out) ↦ emit out (decode_from next bs)
]

abbrev pub decode : Bytes → Option Text
decode bs = decode_from idle bs
