-- ===== src/Dispatch/Samples.antt =====
-- Three Processes that wait, with room for one in each pool.
use myknowledgebase.Prelude.{ℕ, ◌≤◌, ◌≡◌, refl, true, false, none, some, List, [], ◌∷◌, arith, map}
use myknowledgebase.Process.Row
use myknowledgebase.Process.Row.{Pool}
use myknowledgebase.Dispatch.Policy
use myknowledgebase.Dispatch.Policy.{Caps, Room, choose_pool, pool_kind, by_channel, by_priority}
use myknowledgebase.Dispatch.Lanes.{first_with_room, lanes, choose_pool-lanes}
use myknowledgebase.Dispatch.Admission.{
  Entry, Settings, queued, admit_waiting, admit_all, admit_unpooled, admit_embeds, admit_generates,
}
use myknowledgebase.Dispatch.Caps.{admit_waiting-caps}

abbrev small : Settings
small = record {
  caps = record {
    local_running = 1;
    local_queued = 1;
    ni_running = 1;
    ni_queued = 1;
    embed_running = 1;
    embed_queued = 1;
    local_char_budget = 16000;
  };
  priority_gate_enabled = false;
  live_inference = true;
  local_generation_enabled = true;
  ni_quota = true;
}

abbrev entry : ℕ → ℕ → Policy.Priority → Entry
entry uuid rank priority = record {
  process_uuid = uuid;
  process_key = "lsrag.construct";
  status = Row.ready;
  dispatch_admitted = false;
  dispatch_pool = none;
  priority_rank = rank;
  available_at = 0;
  created_at = uuid;
  execution_open = true;
  task_open = true;
  priority = priority;
  explicit_channel = none;
  source_chars = 10;
}

abbrev waiting_rows : List Entry
waiting_rows =
    entry 1 200 Policy.normal ∷ entry 2 400 Policy.urgent ∷ entry 3 200 Policy.normal ∷ []

-- The urgent one takes the non-interactive pool first, the older normal one the local pool.
admits_two :
    map (λ r. r.dispatch_pool) (admit_waiting small 5 waiting_rows)
    ≡ some Row.local_inference ∷ some Row.non_interactive ∷ none ∷ []
unfolding admit_waiting admit_all admit_unpooled admit_embeds admit_generates choose_pool pool_kind
    by_channel by_priority
admits_two = refl

admit_waiting-caps_example :
    (queued Row.local_inference (admit_waiting small 5 waiting_rows) ≤ 1)
    × (queued Row.non_interactive (admit_waiting small 5 waiting_rows) ≤ 1)
    × (queued Row.embed (admit_waiting small 5 waiting_rows) ≤ 1)
admit_waiting-caps_example =
    admit_waiting-caps small 5 waiting_rows 1 1 1 (omega arith) (omega arith) (omega arith)
      (omega arith) (omega arith) (omega arith)

abbrev room : Room
room = record {
  local_queued = 6;
  ni_queued = 1;
  local_available = true;
  ni_quota = true;
  local_queued_cap = 6;
  ni_queued_cap = 4;
}

choose_pool-lanes_example :
    choose_pool Policy.normal Policy.generate room false none
    ≡ first_with_room room (lanes Policy.generate none Policy.normal false)
choose_pool-lanes_example = choose_pool-lanes Policy.normal Policy.generate room false none
