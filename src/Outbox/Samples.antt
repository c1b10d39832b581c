-- ===== src/Outbox/Samples.antt =====
-- A delivery that is leased, released and leased again.
use myknowledgebase.Prelude.{ℕ, ◌+◌, ◌≡◌, refl, none, some, List, [], ◌∷◌}
use myknowledgebase.Outbox.Delivery.{
  Delivery, Call, pending, in_flight, done, dead, leases, releases, kills, lease, complete, release,
  mark_dead, call, call_all,
}
use myknowledgebase.Outbox.Ownership.{
  call_all-settled, call_all-stale, call_all-takeovers, takeovers,
}

abbrev fresh : Delivery
fresh = record {
  status = pending;
  lease_owner = none;
  lease_expires_at = none;
  attempts = 0;
  attempt_budget = some 2;
  available_at = 0;
  last_error = none;
}

abbrev two_failures : List (Call × ℕ)
two_failures =
    (leases "a:1" 30, 0)
    ∷ (releases "a:1" "down", 1)
    ∷ (leases "a:2" 30, 2)
    ∷ (releases "a:2" "down", 3)
    ∷ []

-- The second failure is past the budget of two attempts.
fails_twice : (call_all two_failures fresh).status ≡ dead
unfolding call_all call lease release
fails_twice = refl

abbrev leased : Delivery
leased = record fresh {
  status = in_flight;
  lease_owner = some "a:1";
  lease_expires_at = some 30;
  attempts = 1;
}

call_all-settled_example :
    call_all ((leases "a:1" 30, 0) ∷ (kills "b:1" "bad", 1) ∷ []) (record fresh { status = done })
    ≡ record fresh { status = done }
call_all-settled_example =
    call_all-settled ((leases "a:1" 30, 0) ∷ (kills "b:1" "bad", 1) ∷ [])
      (record fresh { status = done }) refl

call_all-stale_example :
    (complete "z:9" (call_all ((leases "b:1" 30, 31) ∷ []) leased)
      ≡ call_all ((leases "b:1" 30, 31) ∷ []) leased)
    × (release "z:9" "late" 40 (call_all ((leases "b:1" 30, 31) ∷ []) leased)
        ≡ call_all ((leases "b:1" 30, 31) ∷ []) leased)
    × (mark_dead "z:9" "late" (call_all ((leases "b:1" 30, 31) ∷ []) leased)
        ≡ call_all ((leases "b:1" 30, 31) ∷ []) leased)
call_all-stale_example =
    call_all-stale ((leases "b:1" 30, 31) ∷ []) "z:9" "late" 40 leased refl refl

call_all-takeovers_example :
    ((call_all (takeovers 5 30) leased).attempts ≡ 5 + 1)
    × ((call_all (takeovers 5 30) leased).status ≡ in_flight)
call_all-takeovers_example = call_all-takeovers 5 30 leased refl refl
