-- ===== src/Outbox/Delivery.antt =====
-- The row of a delivery in `mkb_outbox`, its statements, and the calls on it.
use myknowledgebase.Prelude.{
  ℕ, suc, ◌+◌, String, Bool, true, false, ◌&&◌, ◌||◌, Option, none, some, List, [], ◌∷◌, ◌==◌,
  string_eq, nat_eq, leb, if◌then◌else◌,
}

pub data Status : Type 0 where
  pending in_flight done dead : Status

-- The budget is a column that may be empty.
pub record Delivery : Type 0 where
  pub status : Status
  pub lease_owner : Option String
  pub lease_expires_at : Option ℕ
  pub attempts : ℕ
  pub attempt_budget : Option ℕ
  pub available_at : ℕ
  pub last_error : Option String

abbrev pub is_pending : Status → Bool
is_pending pending = true
is_pending _ = false

abbrev pub is_in_flight : Status → Bool
is_in_flight in_flight = true
is_in_flight _ = false

abbrev pub is_settled : Status → Bool
is_settled done = true
is_settled dead = true
is_settled _ = false

abbrev pub lease_over : Option ℕ → ℕ → Bool
lease_over none now = false
lease_over (some t) now = leb t now

-- `lease_owner=?`, where the column may be NULL.
abbrev pub owned_by : Option String → String → Bool
owned_by none owner = false
owned_by (some o) owner = o == owner

-- `int(row.get("attempt_budget") or 8)`
abbrev pub budget_of : Delivery → ℕ
budget_of d = elim d.attempt_budget [ none ↦ 8 | some b ↦ if b == 0 then 8 else b ]

-- `_lease_outbox_row`, for a delivery that it selects; the owner is unique to the lease.
unfoldable pub lease : String → ℕ → ℕ → Delivery → Delivery
lease owner seconds now d =
    if (is_pending d.status && leb d.available_at now)
      || (is_in_flight d.status && lease_over d.lease_expires_at now)
    then record d {
      status = in_flight;
      lease_owner = some owner;
      lease_expires_at = some (now + seconds);
      attempts = suc d.attempts;
    }
    else d

-- The WHERE that the owner of a lease writes under.
abbrev pub holds_lease : String → Delivery → Bool
holds_lease owner d = is_in_flight d.status && owned_by d.lease_owner owner

-- `_complete_outbox`
unfoldable pub complete : String → Delivery → Delivery
complete owner d =
    if holds_lease owner d
    then record d { status = done; lease_owner = none; lease_expires_at = none }
    else d

-- `_release_outbox`
unfoldable pub release : String → String → ℕ → Delivery → Delivery
release owner error now d =
    if holds_lease owner d
    then record d {
      status = if leb (budget_of d) d.attempts then dead else pending;
      lease_owner = none;
      lease_expires_at = none;
      last_error = some error;
      available_at = now + 1;
    }
    else d

-- `_mark_outbox_dead`
unfoldable pub mark_dead : String → String → Delivery → Delivery
mark_dead owner error d =
    if holds_lease owner d
    then record d {
      status = dead;
      lease_owner = none;
      lease_expires_at = none;
      last_error = some error;
    }
    else d

pub data Call : Type 0 where
  leases : (owner : String) (seconds : ℕ) → Call
  completes : (owner : String) → Call
  releases : (owner error : String) → Call
  kills : (owner error : String) → Call

unfoldable pub call : Call → ℕ → Delivery → Delivery
call (leases owner seconds) now d = lease owner seconds now d
call (completes owner) now d = complete owner d
call (releases owner error) now d = release owner error now d
call (kills owner error) now d = mark_dead owner error d

unfoldable pub call_all : List (Call × ℕ) → Delivery → Delivery
call_all [] d = d
call_all ((c, now) ∷ cs) d = call_all cs (call c now d)
