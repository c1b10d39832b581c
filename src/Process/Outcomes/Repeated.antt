-- ===== src/Process/Outcomes/Repeated.antt =====
-- An outcome that arrives twice.
use myknowledgebase.Prelude.{
  ensured, >>-eq-ok, require-eq-ok, ℕ, String, ◌≡◌, refl, Bool, true, false, Option, some, Result,
  ok, err, ◌>>◌, ◌==◌, nat_eq, string_eq, option_eq, Ensures, raises, returns, require,
  require-Ensures, refuse-Ensures, check-Ensures, if-both, then-Ensures, not, ◌&&◌, if◌then◌else◌,
  beq→eq, beq_refl, [],
}
use myknowledgebase.Process.Row.{
  Process, is_terminal, is_running, is_terminal_execution, is_cancelling_execution, truthy,
}
use myknowledgebase.Process.Updates.{succeed_row, fail_row, updated_if}
use myknowledgebase.Process.Transaction
use myknowledgebase.Process.Transaction.{Db, Done, Fault, if_written}
use myknowledgebase.Process.Claims.{fail_process}
use myknowledgebase.Process.Outcomes
use myknowledgebase.Process.Outcomes.{
  Outcome, Disposition, assert_identity, accept_outcome, accept_terminal, accept_running,
  accept_disposition, accept_success, accept_failure, is_proved, commit, fail_and_route, text,
}

-- The row ended with this outcome.
abbrev EndedWith : Outcome → Process → Type 0
EndedWith o p =
    (is_terminal p.status ≡ true)
    × (p.accepted_outcome_digest ≡ some o.outcome_digest)
    × (assert_identity p o ≡ ok tt)

-- The transaction raises, or ends the row with this outcome.
abbrev Ends : {A : Type 0} → Outcome → Result Fault (Done A) → Type 0
Ends o r = Ensures (λ done. EndedWith o done.db.process) r

-- A final outcome: a success with its proofs, or a failure.
abbrev pub is_final : Disposition → Outcome → Bool
is_final Outcomes.succeeded o = is_proved o
is_final Outcomes.failed o = true
is_final Outcomes.retryable_failure o = false
is_final Outcomes.waiting o = false

-- A WHERE that held wrote a row of which the rest holds.
after_write :
    {A : Type 0} (o : Outcome) (c : Bool) (row : Process) (f : Process → Result Fault (Done A))
    (b : Result Fault (Done A))
    → Ends o (f row)
    → Ends o b
    → Ends o (if_written (updated_if c row) f b)
after_write o true row f b s n = s
after_write o false row f b s n = n

fail_process-Ends :
    (code disposition : String) (o : Outcome) (now : ℕ) (db : Db)
    → assert_identity db.process o ≡ ok tt
    → Ends o (fail_process code disposition (some o.outcome_digest) db.process now db)
unfolding fail_process fail_row assert_identity
fail_process-Ends code disposition o now db i =
    after_write o
      (not (is_terminal db.process.status)
        && (db.process.fencing_generation == db.process.fencing_generation))
      _ _ _ (returns (refl, refl, i)) (same db.process.fencing_generation _)
  where
    same :
        (g : ℕ) (r : Result Fault (Done (Unit {0})))
        → Ends o (if g == g then err Transaction.stale_process_fence else r)
    same g r = rw (beq_refl g) raises

accept_success-Ends :
    (committer : Option (Outcome → Result Fault (Unit {0}))) (o : Outcome) (now : ℕ) (db : Db)
    → assert_identity db.process o ≡ ok tt
    → is_proved o ≡ true
    → Ends o (accept_success committer o now db)
unfolding accept_success succeed_row assert_identity
accept_success-Ends committer o now db i proved = rw proved (
    check-Ensures _ (commit committer o) _ (
      after_write o
        (is_running db.process.status && (db.process.fencing_generation == o.fencing_generation)) _
        _ _ (returns (refl, refl, i)) raises))

accept_failure-Ends :
    (o : Outcome) (now : ℕ) (db : Db)
    → assert_identity db.process o ≡ ok tt
    → Ends o (accept_failure o now db)
unfolding accept_failure
accept_failure-Ends o now db i =
    then-Ensures (λ done. EndedWith o done.db.process) _
      (fail_process (text o.error_code) "non-retryable" (some o.outcome_digest) db.process now db) _
      (fail_process-Ends (text o.error_code) "non-retryable" o now db i) (λ done e. returns e)

accept_disposition-Ends :
    (k : Disposition) (committer : Option (Outcome → Result Fault (Unit {0}))) (backoff : ℕ)
    (o : Outcome) (now : ℕ) (db : Db)
    → assert_identity db.process o ≡ ok tt
    → is_final k o ≡ true
    → Ends o (accept_disposition k committer backoff o now db)
unfolding accept_disposition
accept_disposition-Ends Outcomes.succeeded committer backoff o now db i f =
    accept_success-Ends committer o now db i f
accept_disposition-Ends Outcomes.failed committer backoff o now db i f =
    require-Ensures _ (truthy o.error_code && truthy o.error_message) _ _
      (λ e. accept_failure-Ends o now db i)
accept_disposition-Ends Outcomes.retryable_failure committer backoff o now db i f = cc
accept_disposition-Ends Outcomes.waiting committer backoff o now db i f = cc

accept_outcome-Ends :
    (canonical : Outcome → String) (committer : Option (Outcome → Result Fault (Unit {0})))
    (backoff : ℕ) (o : Outcome) (now : ℕ) (db : Db)
    → is_final o.disposition o ≡ true
    → Ends o (accept_outcome canonical committer backoff o now db)
unfolding accept_outcome accept_terminal accept_running
accept_outcome-Ends canonical committer backoff o now db f =
    require-Ensures _ (canonical o == o.outcome_digest) _ _
      (λ c. by_identity (assert_identity db.process o) refl)
  where
    by_identity :
        (m : Result Fault (Unit {0}))
        → assert_identity db.process o ≡ m
        → Ends o (
            m
            >> (if is_terminal db.process.status
                then accept_terminal o db
                else accept_running committer backoff o now db))
    by_identity (err e) i = raises
    by_identity (ok u) i =
        if-both (Ends o) (is_terminal db.process.status) _ _
          (λ t.
            if-both (Ends o) (db.process.accepted_outcome_digest == some o.outcome_digest) _ _
              (λ s. returns (t, beq→eq _ _ s, i)) (λ s. raises))
          (λ t. require-Ensures _ (is_running db.process.status) _ _ (λ r.
            refuse-Ensures _ (is_terminal_execution db.execution.status) _ _ (λ x.
              refuse-Ensures _ (is_cancelling_execution db.execution.status) _ _
                (λ k. accept_disposition-Ends o.disposition committer backoff o now db i f))))

-- A final outcome, a success with its proofs or a failure, that was accepted is accepted again at
-- every later time, and the second time changes nothing, asks for nothing and replies false.
pub accept_outcome-repeated :
    (canonical : Outcome → String) (committer : Option (Outcome → Result Fault (Unit {0})))
    (backoff later_backoff : ℕ) (o : Outcome) (now later : ℕ) (db : Db) (done : Done Bool)
    → is_final o.disposition o ≡ true
    → accept_outcome canonical committer backoff o now db ≡ ok done
    → accept_outcome canonical committer later_backoff o later done.db
      ≡ ok (record { db = done.db; effects = []; reply = false })
unfolding accept_outcome accept_terminal
accept_outcome-repeated canonical committer backoff later_backoff o now later db done f h =
    let ended = ensured (accept_outcome-Ends canonical committer backoff o now db f) h in
    let carried =
      require-eq-ok (canonical o == o.outcome_digest) Transaction.outcome_digest_invalid
        (>>-eq-ok (require (canonical o == o.outcome_digest) Transaction.outcome_digest_invalid) _
          h).0 in
    rw (carried, ended.2, ended.0, ended.1, beq_refl (some o.outcome_digest)) refl
