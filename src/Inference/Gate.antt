-- ===== src/Inference/Gate.antt =====
-- `ConcurrencyGate` of src/runtime/inference/facade.py.
use myknowledgebase.Prelude.{
  ℕ, ◌+◌, ◌-◌, String, Bool, true, false, not, ◌&&◌, ◌||◌, Option, none, some, List, [], ◌∷◌, ◌==◌,
  nat_eq, string_eq, Result, ok, err, all, keep, ltb, leb, lookup, if◌then◌else◌,
}

pub record Gate : Type 0 where
  pub global_max : ℕ
  pub capability_limits : List (String × ℕ)
  pub global_in_flight : ℕ
  pub by_capability : List (String × ℕ)

-- `__init__`, which raises a `ValueError`
unfoldable pub new_gate : ℕ → List (String × ℕ) → Option Gate
new_gate global_max limits =
    if not (leb 1 global_max && leb global_max 4096)
    then none
    else if not (all (λ l. not (l.0 == "") && (leb 1 l.1 && leb l.1 global_max)) limits)
    then none
    else some (record {
      global_max = global_max;
      capability_limits = limits;
      global_in_flight = 0;
      by_capability = [];
    })

abbrev pub or_zero : Option ℕ → ℕ
or_zero none = 0
or_zero (some n) = n

-- `self._by_capability.get(capability, 0)`
abbrev pub count_of : String → List (String × ℕ) → ℕ
count_of capability counts = or_zero (lookup counts capability)

-- `pop(capability, None)`
abbrev pub pop : String → List (String × ℕ) → List (String × ℕ)
pop capability counts = keep (λ entry. not (entry.0 == capability)) counts

abbrev pub put : String → ℕ → List (String × ℕ) → List (String × ℕ)
put capability count counts = (capability, count) ∷ pop capability counts

abbrev pub is_full : Option ℕ → ℕ → Bool
is_full none count = false
is_full (some capability_max) count = leb capability_max count

-- `try_acquire`: the gate afterwards, and whether there is a lease.
unfoldable pub try_acquire : String → Gate → Gate × Bool
try_acquire capability g =
    if leb g.global_max g.global_in_flight
      || is_full (lookup g.capability_limits capability) (count_of capability g.by_capability)
    then (g, false)
    else (
      record g {
        global_in_flight = g.global_in_flight + 1;
        by_capability = put capability (count_of capability g.by_capability + 1) g.by_capability;
      },
      true,
    )

abbrev pub counted_down : String → ℕ → List (String × ℕ) → List (String × ℕ)
counted_down capability count counts =
    if count == 1 then pop capability counts else put capability (count - 1) counts

abbrev pub released : String → Gate → Gate
released capability g = record g {
  global_in_flight = g.global_in_flight - 1;
  by_capability = counted_down capability (count_of capability g.by_capability) g.by_capability;
}

-- `release`, which raises a `RuntimeError`
unfoldable pub release : String → Gate → Result String Gate
release capability g =
    if ltb g.global_in_flight 1 || ltb (count_of capability g.by_capability) 1
    then err "inference concurrency gate release is unbalanced"
    else ok (released capability g)
