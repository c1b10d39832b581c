-- ===== src/Dispatch/Caps.antt =====
-- The caps of the queues, through the whole admission.
use myknowledgebase.Prelude.{
  ℕ, suc, ◌+◌, ◌≤◌, ◌<◌, not, ◌&&◌, Option, none, some, List, [], ◌∷◌, ◌==◌, nat_eq, keep, ltb, leb,
  if◌then◌else◌, if-both, leb_false→lt, arith,
}
use myknowledgebase.Process.Row
use myknowledgebase.Process.Row.{Pool, is_ready}
use myknowledgebase.Dispatch.Policy.{Caps}
use myknowledgebase.Dispatch.Admission.{
  generate_before, is_embed, is_generate, embed_before, sort_by, kind_of, is_unpooled, is_waiting,
  counted, admit_all, Entry, Settings, Queues, in_pool, is_queued, queued, admit_one, keep_head,
  admitted, admit_into, admit_unpooled, admit_embeds, admit_chosen, admit_generate, admit_generates,
  admit_waiting, release, pool_of, is_lower,
}

-- What an admission into `pool` can add to the queue of `p`.
abbrev growth : Pool → Option Pool → ℕ
growth p pool = if in_pool p pool then 1 else 0

AtMost : Pool → ℕ → Option (List Entry) → Type 0
AtMost p n none = Unit
AtMost p n (some rows) = queued p rows ≤ n

keep_head-AtMost :
    (p : Pool) (r : Entry) (n m : ℕ) (o : Option (List Entry))
    → (if is_queued p r then suc n else n) ≤ m
    → AtMost p n o
    → AtMost p m (keep_head r o)
unfolding AtMost
keep_head-AtMost p r n m none le h = tt
keep_head-AtMost p r n m (some rs) le h = ground arith

admit_one-AtMost :
    (p : Pool) (pool : Option Pool) (uuid : ℕ) (rows : List Entry)
    → AtMost p (queued p rows + growth p pool) (admit_one pool uuid rows)
unfolding AtMost
admit_one-AtMost p pool uuid [] = tt
admit_one-AtMost p pool uuid (r ∷ rs) =
    if-both (AtMost p (queued p (r ∷ rs) + growth p pool))
      ((r.process_uuid == uuid) && not r.dispatch_admitted) _ _ (λ e. ground arith)
      (λ e.
        keep_head-AtMost p r (queued p rs + growth p pool) _ (admit_one pool uuid rs) (ground arith)
          (admit_one-AtMost p pool uuid rs))

-- The counts that the loops carry cover the queues, and stay within these bounds.
record Within (l n e : ℕ) (q : Queues) : Type 0 where
  local_counted : queued Row.local_inference q.rows ≤ q.local_queued
  ni_counted : queued Row.non_interactive q.rows ≤ q.ni_queued
  embed_counted : queued Row.embed q.rows ≤ q.embed_queued
  local_bounded : q.local_queued ≤ l
  ni_bounded : q.ni_queued ≤ n
  embed_bounded : q.embed_queued ≤ e

-- Room for one more in the pool of an admission.
RoomFor : (l n e : ℕ) → Option Pool → Queues → Type 0
RoomFor l n e none q = Unit
RoomFor l n e (some Row.local_inference) q = q.local_queued < l
RoomFor l n e (some Row.non_interactive) q = q.ni_queued < n
RoomFor l n e (some Row.embed) q = q.embed_queued < e

admitted-Within :
    (l n e : ℕ) (pool : Option Pool) (q : Queues) (o : Option (List Entry))
    → Within l n e q
    → RoomFor l n e pool q
    → ((p : Pool) → AtMost p (queued p q.rows + growth p pool) o)
    → Within l n e (admitted pool q o)
unfolding AtMost RoomFor
admitted-Within l n e pool q none w room h = w
admitted-Within l n e none q (some rows) w room h =
    ground (arith, h Row.local_inference, h Row.non_interactive, h Row.embed)
admitted-Within l n e (some Row.local_inference) q (some rows) w room h =
    ground (arith, h Row.local_inference, h Row.non_interactive, h Row.embed)
admitted-Within l n e (some Row.non_interactive) q (some rows) w room h =
    ground (arith, h Row.local_inference, h Row.non_interactive, h Row.embed)
admitted-Within l n e (some Row.embed) q (some rows) w room h =
    ground (arith, h Row.local_inference, h Row.non_interactive, h Row.embed)

admit_into-Within :
    (l n e : ℕ) (pool : Option Pool) (r : Entry) (q : Queues)
    → Within l n e q
    → RoomFor l n e pool q
    → Within l n e (admit_into pool r q)
admit_into-Within l n e pool r q w room =
    admitted-Within l n e pool q (admit_one pool r.process_uuid q.rows) w room
      (λ p. admit_one-AtMost p pool r.process_uuid q.rows)

admit_unpooled-Within :
    (l n e : ℕ) (rs : List Entry) (q : Queues) → Within l n e q → Within l n e (admit_unpooled rs q)
unfolding admit_unpooled RoomFor
admit_unpooled-Within l n e [] q w = w
admit_unpooled-Within l n e (r ∷ rs) q w =
    admit_unpooled-Within l n e rs (admit_into none r q) (admit_into-Within l n e none r q w tt)

admit_embeds-Within :
    (l n e : ℕ) (caps : Caps) (rs : List Entry) (q : Queues)
    → caps.embed_queued ≤ e
    → Within l n e q
    → Within l n e (admit_embeds caps rs q)
unfolding admit_embeds RoomFor
admit_embeds-Within l n e caps [] q c w = w
admit_embeds-Within l n e caps (r ∷ rs) q c w =
    if-both (Within l n e) (leb caps.embed_queued q.embed_queued) _ _ (λ full. w)
      (λ room.
        admit_embeds-Within l n e caps rs (admit_into (some Row.embed) r q) c
          (admit_into-Within l n e (some Row.embed) r q w (below (leb_false→lt room) c)))
  where
    below : {a b d : ℕ} → a < b → b ≤ d → a < d
    below h k = omega arith

admit_chosen-Within :
    (l n e : ℕ) (s : Settings) (pool : Option Pool) (r : Entry) (q : Queues)
    → s.caps.local_queued ≤ l
    → s.caps.ni_queued ≤ n
    → Within l n e q
    → Within l n e (admit_chosen s pool r q)
unfolding RoomFor
admit_chosen-Within l n e s none r q c d w = w
admit_chosen-Within l n e s (some Row.embed) r q c d w = w
admit_chosen-Within l n e s (some Row.local_inference) r q c d w =
    if-both (Within l n e) (ltb q.local_queued s.caps.local_queued) _ _
      (λ h. admit_into-Within l n e (some Row.local_inference) r q w (ground arith)) (λ h. w)
admit_chosen-Within l n e s (some Row.non_interactive) r q c d w =
    if-both (Within l n e) (ltb q.ni_queued s.caps.ni_queued) _ _
      (λ h. admit_into-Within l n e (some Row.non_interactive) r q w (ground arith)) (λ h. w)

admit_generates-Within :
    (l n e : ℕ) (s : Settings) (rs : List Entry) (q : Queues)
    → s.caps.local_queued ≤ l
    → s.caps.ni_queued ≤ n
    → Within l n e q
    → Within l n e (admit_generates s rs q)
unfolding admit_generates
admit_generates-Within l n e s [] q c d w = w
admit_generates-Within l n e s (r ∷ rs) q c d w =
    admit_generates-Within l n e s rs (admit_generate s r q) c d (
      if-both (Within l n e) (s.priority_gate_enabled && is_lower r.priority) _ _ (λ g. w)
        (λ g. admit_chosen-Within l n e s (pool_of s r q) r q c d w))

admit_all-Within :
    (l n e : ℕ) (s : Settings) (waiting : List Entry) (q : Queues)
    → s.caps.local_queued ≤ l
    → s.caps.ni_queued ≤ n
    → s.caps.embed_queued ≤ e
    → Within l n e q
    → Within l n e (admit_all s waiting q)
unfolding admit_all
admit_all-Within l n e s waiting q cl cn ce w =
    let no_pool = keep (λ r. is_unpooled (kind_of s r)) waiting in
    let embeds = sort_by embed_before (keep (λ r. is_embed (kind_of s r)) waiting) in
    let generates = sort_by generate_before (keep (λ r. is_generate (kind_of s r)) waiting) in
    admit_generates-Within l n e s generates (admit_embeds s.caps embeds (admit_unpooled no_pool q))
      cl cn
      (admit_embeds-Within l n e s.caps embeds (admit_unpooled no_pool q) ce
        (admit_unpooled-Within l n e no_pool q w))

counted-Within :
    (l n e : ℕ) (rows : List Entry)
    → queued Row.local_inference rows ≤ l
    → queued Row.non_interactive rows ≤ n
    → queued Row.embed rows ≤ e
    → Within l n e (counted rows)
counted-Within l n e rows ql qn qe = record {
  local_counted = omega arith;
  ni_counted = omega arith;
  embed_counted = omega arith;
  local_bounded = ql;
  ni_bounded = qn;
  embed_bounded = qe;
}

queues-bounded :
    {l n e : ℕ} (q : Queues)
    → Within l n e q
    → (queued Row.local_inference q.rows ≤ l)
      × (queued Row.non_interactive q.rows ≤ n)
      × (queued Row.embed q.rows ≤ e)
queues-bounded q w = (
  chain w.local_counted w.local_bounded,
  chain w.ni_counted w.ni_bounded,
  chain w.embed_counted w.embed_bounded,
)
  where
    chain : {a b c : ℕ} → a ≤ b → b ≤ c → a ≤ c
    chain h k = omega arith

-- Bounds that the caps and the queues before the admission, past the release under the gate, do not
-- exceed are not exceeded by the queues after it either: no pool is filled past its cap, and a queue
-- that is past its cap already gets nothing.
pub admit_waiting-caps :
    (s : Settings) (now : ℕ) (table : List Entry) (l n e : ℕ)
    → s.caps.local_queued ≤ l
    → s.caps.ni_queued ≤ n
    → s.caps.embed_queued ≤ e
    → queued Row.local_inference (release s table) ≤ l
    → queued Row.non_interactive (release s table) ≤ n
    → queued Row.embed (release s table) ≤ e
    → (queued Row.local_inference (admit_waiting s now table) ≤ l)
      × (queued Row.non_interactive (admit_waiting s now table) ≤ n)
      × (queued Row.embed (admit_waiting s now table) ≤ e)
unfolding admit_waiting
admit_waiting-caps s now table l n e cl cn ce ql qn qe =
    let rows = release s table in
    queues-bounded (admit_all s (keep (is_waiting now) rows) (counted rows)) (
      admit_all-Within l n e s (keep (is_waiting now) rows) (counted rows) cl cn ce
        (counted-Within l n e rows ql qn qe))
