-- ===== src/Construction/Plan.antt =====
-- `vectorization_plan` of src/services/lsrag_compiler/construct.py: which texts are to be made vectors.
use myknowledgebase.Prelude.{
  ℕ, String, Bool, false, not, ◌&&◌, ◌||◌, List, [], ◌∷◌, ◌++◌, Result, ok, err, ◌>>=◌, ◌>>◌,
  require, refuse, fold_ok, ◌==◌, string_eq, nat_eq, any, ltb, length, if◌then◌else◌,
}
use myknowledgebase.Text.{Text, encode}
use myknowledgebase.Structure.Texts.{text_eq}
use myknowledgebase.Structure.Model.{is_blank}
use myknowledgebase.Construction.Content.{
  Fault, vectorize_budget_invalid, vectorize_content_mismatch, budget_content_full,
  original_not_reattached, g0_summary_required, content_full, text_leb,
}
use myknowledgebase.Construction.Model.{
  Channel, ConstructionUnit, ConstructionDocument, DualChannelProjection, VectorizationUnit,
}
use myknowledgebase.Construction.Construct.{
  ConstructionDigests, is_reattached, validate_construction,
}

-- `required`, `skipped` and `g0_original_ready` while the channels are taken.
pub record Planning : Type 0 where
  pub required : List VectorizationUnit
  pub skipped : List (Text × String)
  pub ready : Bool

-- `channel` in the order of its text: "original" before "summary".
abbrev pub channel_leb : String → String → Bool
channel_leb c d = (c == "original") || (d == "summary")

abbrev pub unit_leb : VectorizationUnit → VectorizationUnit → Bool
unit_leb u v =
    ltb u.granularity v.granularity
    || ((u.granularity == v.granularity)
        && (not (text_leb v.unit_id u.unit_id)
            || ((u.unit_id == v.unit_id) && channel_leb u.channel v.channel)))

abbrev pub insert_unit : VectorizationUnit → List VectorizationUnit → List VectorizationUnit
insert_unit u [] = u ∷ []
insert_unit u (v ∷ vs) =
    let rest = insert_unit u vs in if unit_leb u v then u ∷ (v ∷ vs) else v ∷ rest

-- `required.sort(key=lambda item: (item.granularity, item.unit_id, item.channel))`
unfoldable pub sort_units : List VectorizationUnit → List VectorizationUnit
sort_units [] = []
sort_units (u ∷ us) = insert_unit u (sort_units us)

abbrev pub is_g0_summary : VectorizationUnit → Bool
is_g0_summary v = (v.granularity == 0) && ((v.channel == "summary") && not (is_blank v.content))

module _ (k : ConstructionDigests) where
  open k use {base}

  abbrev pub vectorization_unit : ConstructionUnit → Channel → Text → VectorizationUnit
  vectorization_unit u c recomputed = record {
    unit_id = u.unit_id;
    granularity = u.granularity;
    channel = c.channel;
    coordinate = u.coordinate;
    content = recomputed;
    content_digest = base.text_digest recomputed;
  }

  -- The body of the inner loop, for one channel of a unit.
  abbrev pub plan_channel :
      List (Text × Text)
      → String
      → ℕ
      → ConstructionUnit
      → Channel
      → Planning
      → Result Fault Planning
  plan_channel headers recipe max u c p = do
    recomputed ← content_full recipe headers c.body
    require ((c.content_digest == base.text_digest recomputed) && (c.content == recomputed))
        vectorize_content_mismatch
    if (u.granularity == 0) && (c.channel == "original")
        then ok (record p {
          ready = p.ready || (not (is_blank recomputed) && is_reattached k u.original);
        })
        else if is_blank recomputed
        then ok (record p { skipped = p.skipped ++ (u.unit_id, c.channel) ∷ [] })
        else if ltb max (length (encode recomputed))
        then err budget_content_full
        else ok (record p { required = p.required ++ vectorization_unit u c recomputed ∷ [] })

  unfoldable pub plan_unit :
      List (Text × Text) → String → ℕ → Planning → ConstructionUnit → Result Fault Planning
  plan_unit headers recipe max p u =
      plan_channel headers recipe max u u.original p >>= plan_channel headers recipe max u u.summary

  -- `vectorization_plan`: the texts that are required, in order, and the channels that are skipped.
  unfoldable pub vectorization_plan :
      ConstructionDocument
      → DualChannelProjection
      → List (Text × Text)
      → ℕ
      → Result Fault (List VectorizationUnit × List (Text × String))
  unfolding plan_unit
  vectorization_plan document dual headers max = do
    validate_construction k document dual headers
    refuse (ltb max 1) vectorize_budget_invalid
    p ←
        fold_ok (plan_unit headers document.content_full_recipe_version max)
          (record { required = []; skipped = []; ready = false }) dual.units
    require p.ready original_not_reattached
    require (any is_g0_summary (sort_units p.required)) g0_summary_required
    ok (sort_units p.required, p.skipped)
