-- ===== src/Process/Recovery/Leases.antt =====
-- The recovery of a lease that has expired.
use myknowledgebase.Prelude.{
  ℕ, suc, ◌≡◌, refl, Bool, true, false, ◌&&◌, ◌||◌, none, nat_eq, beq_refl, leb, Result, ok, err,
  if◌then◌else◌, arith, String, [], ◌∷◌, not, and_left, and_right,
}
use myknowledgebase.Process.Row
use myknowledgebase.Process.Row.{
  Process, Execution, Status, is_held, is_cancelling, is_terminal, is_cancelling_execution,
}
use myknowledgebase.Process.Updates.{due, recover_row, fail_row, expire_cancelling_row}
use myknowledgebase.Process.Transaction.{Db, Done, Fault, converge}
use myknowledgebase.Process.Claims.{fail_process}
use myknowledgebase.Process.Recovery.{
  recover_expired_lease, replay, expire_cancelling, fail_and_route, is_expired, unchanged,
}

-- What happens to a row whose lease has expired: a row that is being cancelled ends; a row that is held
-- under an Execution that is being cancelled stays; any other is made ready while it may be replayed and
-- has a recovery left, and else fails.
pub data Way : Type 0 where
  ends stays replays fails : Way

abbrev pub way_of : Db → Way
way_of db =
    if is_cancelling db.process.status
    then ends
    else if is_cancelling_execution db.execution.status
    then stays
    else if db.process.safe_replay && not (leb db.process.max_recoveries db.process.recovery_count)
    then replays
    else fails

-- The row has a status, no lease, a revision more, and counts as recovered.
abbrev pub Freed : Status → Db → Done Bool → Type 0
Freed s db done =
    (done.reply ≡ true)
    × (done.db.process.status ≡ s)
    × (done.db.process.lease_owner ≡ none)
    × (done.db.process.claim_token_hash ≡ none)
    × (done.db.process.lease_expires_at ≡ none)

abbrev pub Recovered : Way → Result Fault (Unit {0}) → Db → Result Fault (Done Bool) → Type 0
Recovered ends routing db result =
    (done : Done Bool) × (result ≡ ok done) × Freed Row.cancelled db done
Recovered stays routing db result =
    result ≡ ok (record { db = db; effects = converge ∷ []; reply = false })
Recovered replays routing db result =
    (done : Done Bool) × (result ≡ ok done)
    × Freed Row.ready db done
    × (done.db.process.fencing_generation ≡ suc db.process.fencing_generation)
    × (done.db.process.recovery_count ≡ suc db.process.recovery_count)
Recovered fails (ok u) db result =
    (done : Done Bool) × (result ≡ ok done) × Freed Row.failed db done
Recovered fails (err fault) db result = result ≡ err fault

not_terminal : (s : Status) → (is_held s || is_cancelling s) ≡ true → is_terminal s ≡ false
not_terminal s h = ground arith

expires_held :
    (s : Status)
    → (is_held s || is_cancelling s) ≡ true
    → is_cancelling s ≡ false
    → is_held s ≡ true
expires_held s h c = ground arith

fails-Recovered :
    (routing : Result Fault (Unit {0})) (now : ℕ) (db : Db) (code disposition : String)
    → is_terminal db.process.status ≡ false
    → Recovered fails routing db (fail_and_route routing code disposition now db)
unfolding fail_process fail_row
fails-Recovered (ok u) now db code disposition open_row =
    rw (open_row, beq_refl db.process.fencing_generation) (_, refl, (refl, refl, refl, refl, refl))
fails-Recovered (err fault) now db code disposition open_row =
    rw (open_row, beq_refl db.process.fencing_generation) refl

module _ (routing : Result Fault (Unit {0})) (now : ℕ) (db : Db) where
  ends-Recovered :
      is_cancelling db.process.status ≡ true
      → Recovered ends routing db (ok (expire_cancelling now db))
  unfolding expire_cancelling expire_cancelling_row
  ends-Recovered cancelling =
      rw (cancelling, beq_refl db.process.fencing_generation)
        (_, refl, (refl, refl, refl, refl, refl))

  stays-Recovered :
      is_cancelling db.process.status ≡ false
      → Recovered stays routing db (ok (expire_cancelling now db))
  unfolding expire_cancelling expire_cancelling_row
  stays-Recovered held = rw held refl

  replays-Recovered :
      is_held db.process.status ≡ true
      → due db.process.lease_expires_at now ≡ true
      → Recovered replays routing db (ok (replay now db))
  unfolding replay recover_row
  replays-Recovered held elapsed =
      rw (held, elapsed, beq_refl db.process.fencing_generation)
        (_, refl, (refl, refl, refl, refl, refl), refl, refl)

  -- The tests of the transaction choose the way.
  by_tests :
      (expired cancelling stopping safe spent : Bool) (a b c d e : Result Fault (Done Bool))
      → expired ≡ true
      → (cancelling ≡ true → Recovered ends routing db a)
      → (cancelling ≡ false → Recovered stays routing db a)
      → Recovered fails routing db b
      → Recovered fails routing db c
      → (cancelling ≡ false → Recovered replays routing db d)
      → Recovered
          (if cancelling
            then ends
            else if stopping
            then stays
            else if safe && not spent
            then replays
            else fails)
          routing
          db
          (if not expired
            then e
            else if cancelling || stopping
            then a
            else if not safe
            then b
            else if spent
            then c
            else d)
  by_tests true true stopping safe spent a b c d e h ends_a stays_a fails_b fails_c replays_d =
      ends_a refl
  by_tests true false true safe spent a b c d e h ends_a stays_a fails_b fails_c replays_d =
      stays_a refl
  by_tests true false false false spent a b c d e h ends_a stays_a fails_b fails_c replays_d =
      fails_b
  by_tests true false false true true a b c d e h ends_a stays_a fails_b fails_c replays_d = fails_c
  by_tests true false false true false a b c d e h ends_a stays_a fails_b fails_c replays_d =
      replays_d refl
  by_tests false cancelling stopping safe spent a b c d e h ends_a stays_a fails_b fails_c
        replays_d =
      cc

  -- Every row whose lease has expired goes its way: a row that is being cancelled is cancelled; one held
  -- under an Execution that is being cancelled is left as it is, and the convergence is asked for; one
  -- that may be replayed and has a recovery left is ready, with its fence and its recoveries counted up;
  -- any other has failed, unless the routing raises, which the transaction then raises itself. In all but
  -- the second way and that raise the row has no owner, token or expiry left and counts as recovered.
  pub recover_expired_lease-Recovered :
      is_expired now db.process ≡ true
      → Recovered (way_of db) routing db (recover_expired_lease routing now db)
  unfolding recover_expired_lease
  recover_expired_lease-Recovered expired =
      let ongoing =
        and_left (is_held db.process.status || is_cancelling db.process.status) _ expired in
      let elapsed =
        and_right (is_held db.process.status || is_cancelling db.process.status) _ expired in
      let open_row = not_terminal db.process.status ongoing in
      by_tests (is_expired now db.process) (is_cancelling db.process.status)
        (is_cancelling_execution db.execution.status) db.process.safe_replay
        (leb db.process.max_recoveries db.process.recovery_count) (ok (expire_cancelling now db))
        (fail_and_route routing "indeterminate-side-effect" "indeterminate" now db)
        (fail_and_route routing "recovery-exhausted" "recovery-exhausted" now db)
        (ok (replay now db)) (ok (unchanged db)) expired ends-Recovered stays-Recovered
        (fails-Recovered routing now db "indeterminate-side-effect" "indeterminate" open_row)
        (fails-Recovered routing now db "recovery-exhausted" "recovery-exhausted" open_row)
        (λ held. replays-Recovered (expires_held db.process.status ongoing held) elapsed)
