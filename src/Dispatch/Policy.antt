-- ===== src/Dispatch/Policy.antt =====
-- The pure dispatch policy of src/runtime/workflow/dispatch.py.
use myknowledgebase.Prelude.{
  ℕ, String, Bool, true, false, Option, none, some, List, [], ◌∷◌, ◌&&◌, ◌==◌, string_eq, contains,
  ltb, if◌then◌else◌,
}
use myknowledgebase.Process.Row
use myknowledgebase.Process.Row.{Pool}

pub data Kind : Type 0 where
  generate embed unpooled : Kind

-- `TaskPriority`; the policy sends every other text to no pool.
pub data Priority : Type 0 where
  low normal high urgent other : Priority

-- The explicit channel of a request: one of the two pools it may name, or another text.
pub data Channel : Type 0 where
  local_inference non_interactive unknown : Channel

abbrev pub generate_process_keys : List String
generate_process_keys =
    "lsrag.transcribe_markdown" ∷ "lsrag.structurize" ∷ "lsrag.construct" ∷ "clean.extract.web_llm"
    ∷ "clean.extract.doc_llm" ∷ "clean.extract.pdf_llm" ∷ []

abbrev pub over_budget_process_keys : List String
over_budget_process_keys =
    "lsrag.structurize" ∷ "lsrag.construct" ∷ "lsrag.transcribe_markdown" ∷ "clean.extract.web_llm"
    ∷ "clean.extract.doc_llm" ∷ "clean.extract.pdf_llm" ∷ []

-- `DispatchCaps`
pub record Caps : Type 0 where
  pub local_running : ℕ
  pub local_queued : ℕ
  pub ni_running : ℕ
  pub ni_queued : ℕ
  pub embed_running : ℕ
  pub embed_queued : ℕ
  pub local_char_budget : ℕ

abbrev pub default_caps : Caps
default_caps = record {
  local_running = 2;
  local_queued = 6;
  ni_running = 2;
  ni_queued = 4;
  embed_running = 8;
  embed_queued = 20;
  local_char_budget = 16000;
}

-- The snapshot is absent, or has an inference mode or none.
unfoldable pub pool_kind : String → Option (Option String) → Kind
pool_kind process_key snapshot =
    if contains generate_process_keys process_key
    then generate
    else if process_key == "lsrag.vectorize"
    then by_mode snapshot
    else unpooled
  where
    by_mode : Option (Option String) → Kind
    by_mode none = embed
    by_mode (some none) = embed
    by_mode (some (some mode)) =
        if mode == "live" then embed else if mode == "deterministic" then unpooled else embed

-- The queues that `choose_pool` reads, and what the deployment offers.
pub record Room : Type 0 where
  pub local_queued : ℕ
  pub ni_queued : ℕ
  pub local_available : Bool
  pub ni_quota : Bool
  pub local_queued_cap : ℕ
  pub ni_queued_cap : ℕ

abbrev pub local_open : Room → Bool
local_open r = r.local_available && ltb r.local_queued r.local_queued_cap

abbrev pub ni_open : Room → Bool
ni_open r = r.ni_quota && ltb r.ni_queued r.ni_queued_cap

abbrev pub pool_if : Bool → Pool → Option Pool
pool_if true pool = some pool
pool_if false pool = none

unfoldable pub by_priority : Priority → (over_budget : Bool) → Room → Option Pool
by_priority urgent over_budget r = pool_if (ni_open r) Row.non_interactive
by_priority high over_budget r = pool_if (ni_open r) Row.non_interactive
by_priority normal over_budget r =
    if over_budget
    then pool_if (ni_open r) Row.non_interactive
    else if local_open r
    then some Row.local_inference
    else pool_if (ni_open r) Row.non_interactive
by_priority low over_budget r = pool_if (local_open r) Row.local_inference
by_priority other over_budget r = none

unfoldable pub by_channel : Option Channel → Priority → (over_budget : Bool) → Room → Option Pool
unfolding by_priority
by_channel (some local_inference) priority over_budget r =
    pool_if (local_open r) Row.local_inference
by_channel (some non_interactive) priority over_budget r = pool_if (ni_open r) Row.non_interactive
by_channel (some unknown) priority over_budget r = none
by_channel none priority over_budget r = by_priority priority over_budget r

unfoldable pub choose_pool :
    Priority → Kind → Room → (over_budget : Bool) → Option Channel → Option Pool
unfolding by_channel
choose_pool priority unpooled r over_budget channel = none
choose_pool priority embed r over_budget channel = some Row.embed
choose_pool priority generate r over_budget channel = by_channel channel priority over_budget r
