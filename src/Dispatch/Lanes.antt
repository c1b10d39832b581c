-- ===== src/Dispatch/Lanes.antt =====
-- The policy against the lanes that each priority and each channel may take.
use myknowledgebase.Prelude.{
  ◌≡◌, refl, Bool, true, false, Option, none, some, List, [], ◌∷◌, if◌then◌else◌, arith,
}
use myknowledgebase.Process.Row
use myknowledgebase.Process.Row.{Pool}
use myknowledgebase.Dispatch.Policy
use myknowledgebase.Dispatch.Policy.{
  Kind, Priority, Channel, Room, local_open, ni_open, pool_if, choose_pool, by_channel, by_priority,
}

-- Whether a pool has room and is on offer; the embed pool is not bounded here.
abbrev pub has_room : Room → Pool → Bool
has_room r Row.local_inference = local_open r
has_room r Row.non_interactive = ni_open r
has_room r Row.embed = true

-- The pools that a priority may go to, in the order of preference.
abbrev pub priority_lanes : Priority → (over_budget : Bool) → List Pool
priority_lanes Policy.urgent over_budget = Row.non_interactive ∷ []
priority_lanes Policy.high over_budget = Row.non_interactive ∷ []
priority_lanes Policy.normal true = Row.non_interactive ∷ []
priority_lanes Policy.normal false = Row.local_inference ∷ Row.non_interactive ∷ []
priority_lanes Policy.low over_budget = Row.local_inference ∷ []
priority_lanes Policy.other over_budget = []

-- An explicit channel leaves only the pool it names.
abbrev pub lanes : Kind → Option Channel → Priority → (over_budget : Bool) → List Pool
lanes Policy.unpooled channel priority over_budget = []
lanes Policy.embed channel priority over_budget = Row.embed ∷ []
lanes Policy.generate (some Policy.local_inference) priority over_budget = Row.local_inference ∷ []
lanes Policy.generate (some Policy.non_interactive) priority over_budget = Row.non_interactive ∷ []
lanes Policy.generate (some Policy.unknown) priority over_budget = []
lanes Policy.generate none priority over_budget = priority_lanes priority over_budget

abbrev pub first_with_room : Room → List Pool → Option Pool
first_with_room r [] = none
first_with_room r (p ∷ ps) = if has_room r p then some p else first_with_room r ps

priority_lem :
    (priority : Priority) (over_budget : Bool) (r : Room)
    → by_priority priority over_budget r ≡ first_with_room r (priority_lanes priority over_budget)
unfolding by_priority
priority_lem Policy.urgent b r = ground arith
priority_lem Policy.high b r = ground arith
priority_lem Policy.normal b r = ground arith
priority_lem Policy.low b r = ground arith
priority_lem Policy.other b r = refl

-- The pool chosen is the first with room among the lanes of the kind, the explicit channel, the
-- priority and the budget, and none where no lane has room.
pub choose_pool-lanes :
    (priority : Priority) (kind : Kind) (r : Room) (over_budget : Bool) (channel : Option Channel)
    → choose_pool priority kind r over_budget channel
      ≡ first_with_room r (lanes kind channel priority over_budget)
unfolding choose_pool by_channel
choose_pool-lanes priority Policy.unpooled r b channel = refl
choose_pool-lanes priority Policy.embed r b channel = refl
choose_pool-lanes priority Policy.generate r b none = priority_lem priority b r
choose_pool-lanes priority Policy.generate r b (some Policy.local_inference) = ground arith
choose_pool-lanes priority Policy.generate r b (some Policy.non_interactive) = ground arith
choose_pool-lanes priority Policy.generate r b (some Policy.unknown) = refl
