-- ===== src/Construction/Content.antt =====
-- `content_full` of src/services/lsrag_compiler/models.py: the headers, sorted by key, one on a line, an
-- empty line, and the body.
use myknowledgebase.Prelude.{
  ℕ, String, Bool, true, false, not, ◌&&◌, ◌||◌, List, [], ◌∷◌, ◌++◌, Result, ok, ◌>>◌, require,
  ◌==◌, nat_eq, string_eq, leb, ltb, all, length, if◌then◌else◌, contains,
}
use myknowledgebase.Text.{Text}
use myknowledgebase.Structure.Model

pub data Fault : Type 0 where
  recipe_unsupported metadata_projection_invalid binding_invalid summary_incomplete : Fault
  binding_digest alignment_invalid content_mismatch g0_original_required : Fault
  vectorize_budget_invalid vectorize_content_mismatch budget_content_full : Fault
  original_not_reattached g0_summary_required : Fault
  structure_invalid : Model.Fault → Fault

-- `s <= t`, as texts compare
abbrev pub text_leb : Text → Text → Bool
text_leb [] t = true
text_leb (c ∷ s) [] = false
text_leb (c ∷ s) (d ∷ t) = ltb c d || ((c == d) && text_leb s t)

abbrev pub insert_header : Text × Text → List (Text × Text) → List (Text × Text)
insert_header h [] = h ∷ []
insert_header h (g ∷ gs) =
    let rest = insert_header h gs in if text_leb h.0 g.0 then h ∷ (g ∷ gs) else g ∷ rest

-- `sorted(headers)`
abbrev pub sort_headers : List (Text × Text) → List (Text × Text)
sort_headers [] = []
sort_headers (h ∷ hs) = insert_header h (sort_headers hs)

abbrev pub is_lower : ℕ → Bool
is_lower c = leb b'a' c && leb c b'z'

abbrev pub is_key_char : ℕ → Bool
is_key_char c =
    is_lower c || (leb b'0' c && leb c b'9') || (c == b'_') || (c == b'.') || (c == b'-')

-- `_HEADER_KEY.fullmatch(key)`
abbrev pub is_header_key : Text → Bool
is_header_key [] = false
is_header_key (c ∷ t) = is_lower c && (all is_key_char t && leb (length t) 63)

-- A header that may be shown: no line of its value ends, and none is the character 0.
abbrev pub is_valid_header : Text × Text → Bool
is_valid_header (key, value) =
    is_header_key key
    && (not (contains value 0) && (not (contains value 10) && not (contains value 13)))

abbrev pub line : Text × Text → Text
line (key, value) = key ++ (b':' ∷ b' ' ∷ value)

-- `"\n".join(lines)`
abbrev pub joined : List (Text × Text) → Text
joined [] = []
joined (h ∷ []) = line h
joined (h ∷ (g ∷ gs)) = line h ++ (10 ∷ joined (g ∷ gs))

abbrev pub with_headers : List (Text × Text) → Text → Text
with_headers [] body = body
with_headers (h ∷ hs) body = joined (h ∷ hs) ++ (10 ∷ 10 ∷ body)

unfoldable pub content_full : String → List (Text × Text) → Text → Result Fault Text
content_full recipe_version headers body = do
  require (recipe_version == "content_full.v1") recipe_unsupported
  require (all is_valid_header (sort_headers headers)) metadata_projection_invalid
  ok (with_headers (sort_headers headers) body)
