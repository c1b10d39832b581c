-- ===== src/Process/Recovery/Retries.antt =====
-- A retry from the failure that asks for it to the next claim, and the branches of the recovery.
use myknowledgebase.Prelude.{
  raises, returns, require-Ensures, >>-eq-ok, refuse-Ensures, ensured, require-eq-ok, Ensures, ℕ,
  suc, ◌+◌, ◌≤◌, ◌<◌, ◌≡◌, refl, String, Bool, true, false, ◌&&◌, Option, none, ◌==◌, nat_eq,
  string_eq, beq_refl, ltb, leb, Result, ok, err, require, arith, [], ◌∷◌,
}
use myknowledgebase.Process.Row
use myknowledgebase.Process.Row.{
  is_open_execution, Process, Execution, ExecutionStatus, is_running, is_held, may_wait, truthy,
  is_cancelling, is_cancelling_execution,
}
use myknowledgebase.Process.Updates.{
  is_restartable, updated_if, retry_row, promote_row, restart_row,
}
use myknowledgebase.Process.Transaction
use myknowledgebase.Process.Transaction.{Db, Done, Fault}
use myknowledgebase.Process.Claims.{with_process, claimable}
use myknowledgebase.Process.Outcomes
use myknowledgebase.Process.Outcomes.{
  accept_disposition, accept_running, accept_outcome, assert_identity, Outcome, accept_retryable,
  wait_execution,
}
use myknowledgebase.Process.Recovery.{
  is_terminal_execution, is_terminal, if_written, Status, promote_due_retry, restart_process,
}

-- What a failure that may be retried leaves, once its time has come.
pub record Retried (before after : Db) (later : ℕ) : Type 0 where
  pub ready : after.process.status ≡ Row.ready
  pub available : after.process.available_at ≡ later
  pub counted : after.process.retry_count ≡ suc before.process.retry_count
  pub unadmitted : after.process.dispatch_admitted ≡ false
  pub execution_ready : after.execution.status ≡ ExecutionStatus.ready
  pub not_waiting : (after.execution.waiting_reason ≡ none) × (after.execution.waiting_ref ≡ none)

ready_again :
    (o : Outcome) (backoff now later : ℕ) (p : Process) (e : Execution)
    → is_running p.status ≡ true
    → (p.fencing_generation == o.fencing_generation) ≡ true
    → ltb p.retry_count p.max_retries ≡ true
    → may_wait e.status ≡ true
    → leb (now + backoff) later ≡ true
    → (done : Done Bool) × (accept_retryable backoff o now (record { process = p; execution = e })
        ≡ ok done)
      × Retried (record { process = p; execution = e }) (promote_due_retry later done.db).db later
unfolding accept_retryable retry_row promote_due_retry promote_row
ready_again o backoff now later p e running current budget waits elapsed =
    rw (running, current, budget, waits)
      (
        _,
        refl,
        rw (elapsed, beq_refl (suc p.row_revision), beq_refl p.process_uuid)
            (record {
              ready = refl;
              available = refl;
              counted = refl;
              unadmitted = refl;
              execution_ready = refl;
              not_waiting = (refl, refl);
            }),
      )

-- The outcome is one that the Process waits for.
abbrev pub Addressed : (canonical : Outcome → String) → Outcome → Process → Execution → Type 0
Addressed canonical o p e =
    ((canonical o == o.outcome_digest) ≡ true)
    × (assert_identity p o ≡ ok tt)
    × (is_running p.status ≡ true)
    × (is_open_execution e.status ≡ true)

to_retryable :
    (canonical : Outcome → String) (committer : Option (Outcome → Result Fault (Unit {0})))
    (backoff : ℕ) (o : Outcome) (now : ℕ) (p : Process) (e : Execution)
    → Addressed canonical o p e
    → o.disposition ≡ Outcomes.retryable_failure
    → (truthy o.error_code && truthy o.error_message) ≡ true
    → accept_outcome canonical committer backoff o now (record { process = p; execution = e })
      ≡ accept_retryable backoff o now (record { process = p; execution = e })
unfolding accept_outcome accept_running accept_disposition
to_retryable canonical committer backoff o now p e at k texts =
    rw
      (
        at.0,
        at.1,
        (open_status p.status at.2),
        at.2,
        (open_execution e.status at.3).0,
        (open_execution e.status at.3).1,
        k,
        texts,
      )
      refl
  where
    open_status : (s : Status) → is_running s ≡ true → is_terminal s ≡ false
    open_status s h = ground arith

    open_execution :
        (s : ExecutionStatus)
        → is_open_execution s ≡ true
        → (is_terminal_execution s ≡ false) × (is_cancelling_execution s ≡ false)
    open_execution s h = ground arith

-- A retryable failure of a running Process that has a retry left is accepted, and when its delay
-- has passed, the promotion makes the row ready at that time, with one retry more on its count and
-- out of its pool, and the Execution ready and no longer waiting.
pub accept_outcome-promote :
    (canonical : Outcome → String) (committer : Option (Outcome → Result Fault (Unit {0})))
    (backoff : ℕ) (o : Outcome) (now later : ℕ) (p : Process) (e : Execution)
    → Addressed canonical o p e
    → o.disposition ≡ Outcomes.retryable_failure
    → (truthy o.error_code && truthy o.error_message) ≡ true
    → p.retry_count < p.max_retries
    → now + backoff ≤ later
    → (done : Done Bool) × (accept_outcome canonical committer backoff o now
          (record { process = p; execution = e })
        ≡ ok done)
      × Retried (record { process = p; execution = e }) (promote_due_retry later done.db).db later
unfolding assert_identity
accept_outcome-promote canonical committer backoff o now later p e at k texts budget elapsed =
    let fence =
      require-eq-ok _ _
        (>>-eq-ok
          (require
            ((p.team_uuid == o.team_uuid)
              && (p.task_uuid == o.task_uuid)
              && (p.execution_uuid == o.execution_uuid)
              && (p.process_uuid == o.process_uuid))
            Transaction.outcome_identity_mismatch)
          (require (p.fencing_generation == o.fencing_generation) Transaction.stale_process_fence)
          at.1).1 in
    rw (to_retryable canonical committer backoff o now p e at k texts) (
      ready_again o backoff now later p e at.2 fence (lt→ltb budget) (may_wait_open e.status at.3)
        (le→leb elapsed))
  where
    may_wait_open : (s : ExecutionStatus) → is_open_execution s ≡ true → may_wait s ≡ true
    may_wait_open s h = ground arith

    lt→ltb : {a b : ℕ} → a < b → ltb a b ≡ true
    lt→ltb h = ground arith

    le→leb : {a b : ℕ} → a ≤ b → leb a b ≡ true
    le→leb h = ground arith

-- The Execution still waits, so that nothing takes the Process up.
abbrev pub Stuck : Db → Type 0
Stuck db =
    (can_run task_open : Bool) (now : ℕ)
    → (claimable can_run task_open now db ≡ false) × ((promote_due_retry now db).db ≡ db)

restarted-Stuck :
    (p : Process) (e : Execution)
    → p.status ≡ Row.ready
    → e.status ≡ ExecutionStatus.waiting
    → Stuck (record { process = p; execution = e })
unfolding claimable promote_due_retry promote_row
restarted-Stuck p e r w can_run task_open now =
    rw (r, w) (ends_closed (leb p.available_at now) p.dispatch_admitted can_run task_open, refl)
  where
    ends_closed : (a b c d : Bool) → (a && b && c && false && d) ≡ false
    ends_closed a b c d = ground arith

written-Stuck :
    (c : Bool) (row : Process) (db : Db)
    → row.status ≡ Row.ready
    → db.execution.status ≡ ExecutionStatus.waiting
    → Ensures {E = Fault}
        (λ (done : Done (Unit {0})). Stuck done.db)
        (if_written
          (updated_if c row)
          (λ p. ok (record {
            db = with_process db p;
            effects = Transaction.wake ∷ Transaction.receipt ∷ [];
            reply = tt;
          }))
          (err Transaction.command_fence_conflict))
written-Stuck true row db r w = returns (restarted-Stuck row db.execution r w)
written-Stuck false row db r w = raises

restart_process-Ensures :
    (key : String) (expected : ℕ) (db : Db)
    → db.execution.status ≡ ExecutionStatus.waiting
    → Ensures (λ (done : Done (Unit {0})). Stuck done.db) (restart_process key expected db)
unfolding restart_process restart_row
restart_process-Ensures key expected db w = refuse-Ensures _ (key == "") _ _ (λ k.
    require-Ensures _ (db.process.fencing_generation == expected) _ _ (λ g.
      refuse-Ensures _ (is_terminal db.process.status) _ _ (λ t.
        written-Stuck
          (is_restartable db.process.status && (db.process.fencing_generation == expected)) _ db
          refl w)))

-- An operator restart of a Process that waits for a retry leaves its Execution waiting, so that no
-- claim selects the Process, whatever its pool and its Task, and no promotion changes a row.
pub restart_process-waiting :
    (key : String) (expected : ℕ) (db : Db) (done : Done (Unit {0})) (can_run task_open : Bool)
    (now : ℕ)
    → db.execution.status ≡ ExecutionStatus.waiting
    → restart_process key expected db ≡ ok done
    → (claimable can_run task_open now done.db ≡ false)
      × ((promote_due_retry now done.db).db ≡ done.db)
restart_process-waiting key expected db done can_run task_open now w h =
    ensured (restart_process-Ensures key expected db w) h can_run task_open now
