-- ===== src/Dispatch/Admission.antt =====
-- `get_pool_occupancies` of src/runtime/workflow/dispatch.py and `_admit_waiting_processes_tx` of
-- src/runtime/workflow/runtime_core.py, on the table of Processes.
use myknowledgebase.Prelude.{
  ℕ, suc, String, Bool, true, false, not, ◌&&◌, ◌||◌, Option, none, some, List, [], ◌∷◌, map, ◌==◌,
  nat_eq, string_eq, contains, keep, ltb, leb, if◌then◌else◌,
}
use myknowledgebase.Process.Row
use myknowledgebase.Process.Row.{Pool, Status, is_ready, is_held}
use myknowledgebase.Dispatch.Policy
use myknowledgebase.Dispatch.Policy.{
  Kind, Priority, Channel, Caps, generate_process_keys, over_budget_process_keys, pool_kind,
  choose_pool,
}

-- A Process with the columns that its Execution, its Task and the Task's audit add. An identifier
-- stands for its place in the order of identifiers.
pub record Entry : Type 0 where
  pub process_uuid : ℕ
  pub process_key : String
  pub status : Status
  pub dispatch_admitted : Bool
  pub dispatch_pool : Option Pool
  pub priority_rank : ℕ
  pub available_at : ℕ
  pub created_at : ℕ
  pub execution_open : Bool
  pub task_open : Bool
  pub priority : Priority
  pub explicit_channel : Option Channel
  pub source_chars : ℕ

pub record Settings : Type 0 where
  pub caps : Caps
  pub priority_gate_enabled : Bool
  pub live_inference : Bool
  pub local_generation_enabled : Bool
  pub ni_quota : Bool

abbrev pub pool_beq : Pool → Pool → Bool
pool_beq Row.local_inference Row.local_inference = true
pool_beq Row.non_interactive Row.non_interactive = true
pool_beq Row.embed Row.embed = true
pool_beq _ _ = false

abbrev pub in_pool : Pool → Option Pool → Bool
in_pool p none = false
in_pool p (some q) = pool_beq p q

-- `status = 'ready' AND dispatch_admitted = 1`, in the group of the pool.
abbrev pub is_queued : Pool → Entry → Bool
is_queued p r = is_ready r.status && r.dispatch_admitted && in_pool p r.dispatch_pool

abbrev pub count : (Entry → Bool) → List Entry → ℕ
count test [] = 0
count test (r ∷ rs) = if test r then suc (count test rs) else count test rs

-- `queued` of `get_pool_occupancies`
abbrev pub queued : Pool → List Entry → ℕ
queued p rows = count (is_queued p) rows

-- `running` of `get_pool_occupancies`
abbrev pub running : Pool → List Entry → ℕ
running p rows = count (λ r. is_held r.status && in_pool p r.dispatch_pool) rows

-- The release of the reservations of lower priority under the gate.
abbrev pub is_gated : Entry → Bool
is_gated r =
    is_ready r.status
    && r.dispatch_admitted
    && ((r.priority_rank == 100) || (r.priority_rank == 200))
    && contains generate_process_keys r.process_key

abbrev pub released : Entry → Entry
released r = if is_gated r then record r { dispatch_admitted = false; dispatch_pool = none } else r

abbrev pub release : Settings → List Entry → List Entry
release s rows = if s.priority_gate_enabled then map released rows else rows

-- `_admit_one_tx`: the row with this key, the key of the table, unless it is admitted already.
abbrev pub keep_head : Entry → Option (List Entry) → Option (List Entry)
keep_head r none = none
keep_head r (some rs) = some (r ∷ rs)

abbrev pub admit_one : Option Pool → ℕ → List Entry → Option (List Entry)
admit_one pool process_uuid [] = none
admit_one pool process_uuid (r ∷ rs) =
    let rest = admit_one pool process_uuid rs in
    if (r.process_uuid == process_uuid) && not r.dispatch_admitted
    then some (record r { dispatch_admitted = true; dispatch_pool = pool } ∷ rs)
    else keep_head r rest

-- The table with the counts of the queues that the loops carry.
pub record Queues : Type 0 where
  pub rows : List Entry
  pub local_queued : ℕ
  pub ni_queued : ℕ
  pub embed_queued : ℕ

-- An admission that wrote its row counts in its queue.
abbrev pub admitted : Option Pool → Queues → Option (List Entry) → Queues
admitted pool q none = q
admitted none q (some rows) = record q { rows = rows }
admitted (some Row.local_inference) q (some rows) = record q {
  rows = rows;
  local_queued = suc q.local_queued;
}
admitted (some Row.non_interactive) q (some rows) = record q {
  rows = rows;
  ni_queued = suc q.ni_queued;
}
admitted (some Row.embed) q (some rows) = record q {
  rows = rows;
  embed_queued = suc q.embed_queued;
}

abbrev pub admit_into : Option Pool → Entry → Queues → Queues
admit_into pool r q = admitted pool q (admit_one pool r.process_uuid q.rows)

unfoldable pub admit_unpooled : List Entry → Queues → Queues
admit_unpooled [] q = q
admit_unpooled (r ∷ rs) q = admit_unpooled rs (admit_into none r q)

unfoldable pub admit_embeds : Caps → List Entry → Queues → Queues
admit_embeds caps [] q = q
admit_embeds caps (r ∷ rs) q =
    let rest = admit_embeds caps rs (admit_into (some Row.embed) r q) in
    if leb caps.embed_queued q.embed_queued then q else rest

abbrev pub is_lower : Priority → Bool
is_lower Policy.low = true
is_lower Policy.normal = true
is_lower _ = false

abbrev pub over_budget : Settings → Entry → Bool
over_budget s r =
    contains over_budget_process_keys r.process_key && ltb s.caps.local_char_budget r.source_chars

abbrev pub pool_of : Settings → Entry → Queues → Option Pool
pool_of s r q =
    choose_pool r.priority Policy.generate
      (record {
        local_queued = q.local_queued;
        ni_queued = q.ni_queued;
        local_available = s.live_inference && s.local_generation_enabled;
        ni_quota = s.ni_quota;
        local_queued_cap = s.caps.local_queued;
        ni_queued_cap = s.caps.ni_queued;
      })
      (over_budget s r) r.explicit_channel

-- The pool chosen is tested against its cap once more.
abbrev pub admit_chosen : Settings → Option Pool → Entry → Queues → Queues
admit_chosen s (some Row.local_inference) r q =
    if ltb q.local_queued s.caps.local_queued then admit_into (some Row.local_inference) r q else q
admit_chosen s (some Row.non_interactive) r q =
    if ltb q.ni_queued s.caps.ni_queued then admit_into (some Row.non_interactive) r q else q
admit_chosen s _ r q = q

abbrev pub admit_generate : Settings → Entry → Queues → Queues
admit_generate s r q =
    if s.priority_gate_enabled && is_lower r.priority then q else admit_chosen s (pool_of s r q) r q

unfoldable pub admit_generates : Settings → List Entry → Queues → Queues
admit_generates s [] q = q
admit_generates s (r ∷ rs) q = admit_generates s rs (admit_generate s r q)

-- The selection of the rows that wait.
abbrev pub is_waiting : ℕ → Entry → Bool
is_waiting now r =
    is_ready r.status
    && not r.dispatch_admitted
    && leb r.available_at now
    && r.execution_open
    && r.task_open

abbrev pub inference_mode : Settings → String
inference_mode s = if s.live_inference then "live" else "deterministic"

abbrev pub kind_of : Settings → Entry → Kind
kind_of s r = pool_kind r.process_key (some (some (inference_mode s)))

-- Keys are compared from the first component on.
abbrev pub before_by : List (ℕ × ℕ) → Bool
before_by [] = true
before_by ((a, b) ∷ rest) = let later = before_by rest in if a == b then later else ltb a b

abbrev pub embed_before : Entry → Entry → Bool
embed_before a b = before_by (
    (a.available_at, b.available_at)
    ∷ (a.created_at, b.created_at)
    ∷ (a.process_uuid, b.process_uuid)
    ∷ [])

abbrev pub generate_before : Entry → Entry → Bool
generate_before a b = before_by (
    (b.priority_rank, a.priority_rank)
    ∷ (a.available_at, b.available_at)
    ∷ (a.created_at, b.created_at)
    ∷ (a.process_uuid, b.process_uuid)
    ∷ [])

-- `list.sort`, which is stable.
abbrev pub insert : (Entry → Entry → Bool) → Entry → List Entry → List Entry
insert before r [] = r ∷ []
insert before r (x ∷ xs) =
    let rest = insert before r xs in if before r x then r ∷ x ∷ xs else x ∷ rest

abbrev pub sort_by : (Entry → Entry → Bool) → List Entry → List Entry
sort_by before [] = []
sort_by before (r ∷ rs) = insert before r (sort_by before rs)

abbrev pub is_unpooled : Kind → Bool
is_unpooled Policy.unpooled = true
is_unpooled _ = false

abbrev pub is_embed : Kind → Bool
is_embed Policy.embed = true
is_embed _ = false

abbrev pub is_generate : Kind → Bool
is_generate Policy.generate = true
is_generate _ = false

-- The queues as the occupancies give them.
abbrev pub counted : List Entry → Queues
counted rows = record {
  rows = rows;
  local_queued = queued Row.local_inference rows;
  ni_queued = queued Row.non_interactive rows;
  embed_queued = queued Row.embed rows;
}

-- The three loops over the rows that wait.
unfoldable pub admit_all : Settings → List Entry → Queues → Queues
unfolding admit_unpooled admit_embeds admit_generates
admit_all s waiting q =
    let unpooled = admit_unpooled (keep (λ r. is_unpooled (kind_of s r)) waiting) q in
    let embeds =
      admit_embeds s.caps (sort_by embed_before (keep (λ r. is_embed (kind_of s r)) waiting))
        unpooled in
    admit_generates s (sort_by generate_before (keep (λ r. is_generate (kind_of s r)) waiting))
      embeds

unfoldable pub admit_waiting : Settings → ℕ → List Entry → List Entry
unfolding admit_all
admit_waiting s now table =
    let rows = release s table in (admit_all s (keep (is_waiting now) rows) (counted rows)).rows
