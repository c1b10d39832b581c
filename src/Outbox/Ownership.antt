-- ===== src/Outbox/Ownership.antt =====
-- What the owner of a lease, and no other caller, does to a delivery.
use myknowledgebase.Prelude.{
  sym, subst, ℕ, zero, suc, ◌+◌, ◌≡◌, refl, ◌∙◌, String, Bool, true, false, not, ◌&&◌, ◌||◌, some,
  List, [], ◌∷◌, all, ◌==◌, string_eq, leb, if-both, arith,
}
use myknowledgebase.Outbox.Delivery.{
  in_flight, Delivery, Call, leases, completes, releases, kills, lease, complete, release,
  mark_dead, call, call_all, is_settled, is_pending, is_in_flight, lease_over, owned_by,
  holds_lease,
}

call-settled : (c : Call) (now : ℕ) (d : Delivery) → is_settled d.status ≡ true → call c now d ≡ d
unfolding call lease complete release mark_dead
call-settled (leases owner seconds) now d h = ground arith
call-settled (completes owner) now d h = ground arith
call-settled (releases owner error) now d h = ground arith
call-settled (kills owner error) now d h = ground arith

-- A delivery that is done or dead stays as it is through every history of calls.
pub call_all-settled :
    (cs : List (Call × ℕ)) (d : Delivery) → is_settled d.status ≡ true → call_all cs d ≡ d
unfolding call_all
call_all-settled [] d h = refl
call_all-settled ((c, now) ∷ cs) d h = rw (call-settled c now d h) (call_all-settled cs d h)

abbrev pub leases_to : String → Call → Bool
leases_to owner (leases o seconds) = o == owner
leases_to owner _ = false

call-unowned :
    (c : Call) (now : ℕ) (owner : String) (d : Delivery)
    → leases_to owner c ≡ false
    → owned_by d.lease_owner owner ≡ false
    → owned_by (call c now d).lease_owner owner ≡ false
unfolding call lease complete release mark_dead
call-unowned (leases o seconds) now owner d h k =
    if-both (λ (r : Delivery). owned_by r.lease_owner owner ≡ false)
      ((is_pending d.status && leb d.available_at now)
        || (is_in_flight d.status && lease_over d.lease_expires_at now))
      _ _ (λ e. h) (λ e. k)
call-unowned (completes o) now owner d h k =
    if-both (λ (r : Delivery). owned_by r.lease_owner owner ≡ false) (holds_lease o d) _ _
      (λ e. refl) (λ e. k)
call-unowned (releases o error) now owner d h k =
    if-both (λ (r : Delivery). owned_by r.lease_owner owner ≡ false) (holds_lease o d) _ _
      (λ e. refl) (λ e. k)
call-unowned (kills o error) now owner d h k =
    if-both (λ (r : Delivery). owned_by r.lease_owner owner ≡ false) (holds_lease o d) _ _
      (λ e. refl) (λ e. k)

call_all-unowned :
    (cs : List (Call × ℕ)) (owner : String) (d : Delivery)
    → all (λ (c : Call × ℕ). not (leases_to owner c.0)) cs ≡ true
    → owned_by d.lease_owner owner ≡ false
    → owned_by (call_all cs d).lease_owner owner ≡ false
unfolding call_all
call_all-unowned [] owner d h k = k
call_all-unowned ((c, now) ∷ cs) owner d h k =
    let both = split h in
    call_all-unowned cs owner (call c now d) both.1 (call-unowned c now owner d both.0 k)
  where
    split : {a b : Bool} → (not a && b) ≡ true → (a ≡ false) × (b ≡ true)
    split {a = true} h = cc
    split {a = false} h = (refl, h)

unheld-same :
    (owner error : String) (now : ℕ) (d : Delivery)
    → owned_by d.lease_owner owner ≡ false
    → (complete owner d ≡ d) × (release owner error now d ≡ d) × (mark_dead owner error d ≡ d)
unfolding complete release mark_dead
unheld-same owner error now d k = rw (k, closed (is_in_flight d.status)) (refl, refl, refl)
  where
    closed : (a : Bool) → (a && false) ≡ false
    closed a = ground arith

-- A worker that does not hold the lease, and is given none in a history, changes nothing after it by
-- completing, releasing or killing the delivery: a lease that was taken over is lost for good.
pub call_all-stale :
    (cs : List (Call × ℕ)) (owner error : String) (now : ℕ) (d : Delivery)
    → all (λ (c : Call × ℕ). not (leases_to owner c.0)) cs ≡ true
    → owned_by d.lease_owner owner ≡ false
    → (complete owner (call_all cs d) ≡ call_all cs d)
      × (release owner error now (call_all cs d) ≡ call_all cs d)
      × (mark_dead owner error (call_all cs d) ≡ call_all cs d)
call_all-stale cs owner error now d h k =
    unheld-same owner error now (call_all cs d) (call_all-unowned cs owner d h k)

-- Workers that lose their lease one after the other, each at the time it runs out.
abbrev pub takeovers : ℕ → ℕ → List (Call × ℕ)
takeovers zero now = []
takeovers (suc n) now = (leases "worker" 1, now) ∷ takeovers n (now + 1)

abbrev taken_over : ℕ → Delivery → Delivery
taken_over now d = record d {
  status = in_flight;
  lease_owner = some "worker";
  lease_expires_at = some (now + 1);
  attempts = suc d.attempts;
}

lease-taken_over :
    (now : ℕ) (d : Delivery)
    → d.status ≡ in_flight
    → d.lease_expires_at ≡ some now
    → lease "worker" 1 now d ≡ taken_over now d
unfolding lease
lease-taken_over now d s e = rw (s, e, leb_refl now) refl
  where
    leb_refl : (a : ℕ) → leb a a ≡ true
    leb_refl a = ground arith

-- A delivery in flight whose lease runs out is leased again each time, whatever its budget: after any
-- number of such leases it is in flight and counts one attempt more for each.
pub call_all-takeovers :
    (n now : ℕ) (d : Delivery)
    → d.status ≡ in_flight
    → d.lease_expires_at ≡ some now
    → ((call_all (takeovers n now) d).attempts ≡ n + d.attempts)
      × ((call_all (takeovers n now) d).status ≡ in_flight)
unfolding call_all call
call_all-takeovers zero now d s e = (omega arith, s)
call_all-takeovers (suc n) now d s e =
    let rest = call_all-takeovers n (now + 1) (taken_over now d) refl refl in
    subst
      (λ (x : Delivery).
        ((call_all (takeovers n (now + 1)) x).attempts ≡ suc n + d.attempts)
        × ((call_all (takeovers n (now + 1)) x).status ≡ in_flight))
      (sym (lease-taken_over now d s e)) (rest.0 ∙ shift n d.attempts, rest.1)
  where
    shift : (n a : ℕ) → n + suc a ≡ suc n + a
    shift n a = omega arith
