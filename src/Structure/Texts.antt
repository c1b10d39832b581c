-- ===== src/Structure/Texts.antt =====
-- The equality test on texts.
use myknowledgebase.Prelude.{◌≡◌, ◌↔◌, Bool, true, false, ◌&&◌, [], ◌∷◌, ◌==◌, Eq, nat_eq, arith}
use myknowledgebase.Text.{Text}

abbrev pub text_beq : Text → Text → Bool
text_beq [] [] = true
text_beq (c ∷ s) (d ∷ t) = (c == d) && text_beq s t
text_beq _ _ = false

pub text_beq_iff : (s t : Text) → (text_beq s t ≡ true) ↔ (s ≡ t)
text_beq_iff [] [] = ground arith
text_beq_iff [] (d ∷ t) = ground arith
text_beq_iff (c ∷ s) [] = ground arith
text_beq_iff (c ∷ s) (d ∷ t) = ground (arith, text_beq_iff s t)

instance abbrev pub text_eq : Eq Text
text_eq = record { test = text_beq; test_iff = text_beq_iff }
