-- ===== src/Process/Recovery.antt =====
-- One row of `promote_due_retries` and of `recover_expired_leases`, and the rows of
-- `_cancel_execution_tree_tx`, of src/runtime/workflow/runtime_outcome.py; `restart_process` of
-- src/services/operator_control.py.
pub mod Retries
pub mod Leases
use myknowledgebase.Prelude.{
  ℕ, String, Bool, true, false, Option, none, some, List, [], ◌∷◌, ◌++◌, not, ◌&&◌, ◌||◌, ◌==◌,
  nat_eq, string_eq, ltb, leb, Result, ok, err, ◌>>=◌, ◌>>◌, require, refuse, if◌then◌else◌,
  of_option,
}
use myknowledgebase.Process.Row
use myknowledgebase.Process.Row.{
  Process, Execution, ExecutionStatus, Status, is_terminal, is_held, is_cancelling,
  is_cancelling_execution, is_waiting_execution, is_terminal_execution,
}
use myknowledgebase.Process.Updates.{
  due, same_ref, promote_row, expire_cancelling_row, recover_row, restart_row, fence_idle_row,
  fence_held_row, cancel_unheld_row,
}
use myknowledgebase.Process.Transaction
use myknowledgebase.Process.Transaction.{
  Db, Done, if_written, Effect, Fault, event, route, wake, refresh_counts, converge, receipt,
}
use myknowledgebase.Process.Claims.{fail_process, with_process}

abbrev pub unchanged : Db → Done Bool
unchanged db = record { db = db; effects = []; reply = false }

-- The Execution that waited for this Process's retry is ready again.
abbrev pub wake_execution : String → Execution → Execution
wake_execution process_uuid e =
    if is_waiting_execution e.status
      && same_ref e.waiting_reason "retry_due"
      && same_ref e.waiting_ref process_uuid
    then record e {
      status = ExecutionStatus.ready;
      waiting_reason = none;
      waiting_ref = none;
      next_wake_at = none;
    }
    else e

-- The reply is whether the row counts as promoted.
unfoldable pub promote_due_retry : ℕ → Db → Done Bool
promote_due_retry now db =
    if is_terminal_execution db.execution.status || is_cancelling_execution db.execution.status
    then unchanged db
    else if_written (promote_row now db.process.row_revision db.process)
        (λ p. record {
          db = record {
            process = p;
            execution = wake_execution db.process.process_uuid db.execution;
          };
          effects = wake ∷ event Row.retry_wait Row.ready ∷ [];
          reply = true;
        })
        (unchanged db)

-- The failure, and the routing in the same transaction, which may raise.
abbrev pub fail_and_route :
    Result Fault (Unit {0}) → String → String → ℕ → Db → Result Fault (Done Bool)
fail_and_route routing code disposition now db = do
  done ← fail_process code disposition none db.process now db
  routing
  ok (record {
    db = done.db;
    effects = done.effects ++ (route Transaction.failed (some code) ∷ []);
    reply = true;
  })

unfoldable pub expire_cancelling : ℕ → Db → Done Bool
expire_cancelling now db =
    if_written (expire_cancelling_row db.process.fencing_generation now db.process)
      (λ p. record {
        db = with_process db p;
        effects = event Row.cancelling Row.cancelled ∷ converge ∷ [];
        reply = true;
      })
      (record { db = db; effects = converge ∷ []; reply = false })

unfoldable pub replay : ℕ → Db → Done Bool
replay now db =
    if_written (recover_row db.process.fencing_generation now db.process)
      (λ p. record {
        db = with_process db p;
        effects = wake ∷ event db.process.status Row.ready ∷ [];
        reply = true;
      })
      (unchanged db)

-- The selection of the rows that are recovered.
abbrev pub is_expired : ℕ → Process → Bool
is_expired now p = (is_held p.status || is_cancelling p.status) && due p.lease_expires_at now

-- A row whose lease has expired, and nothing for any other; the reply is whether it counts as
-- recovered. `routing` is what `_route_after_terminal_process_tx` returns or raises: where it raises,
-- the transaction writes nothing.
unfoldable pub recover_expired_lease : Result Fault (Unit {0}) → ℕ → Db → Result Fault (Done Bool)
unfolding fail_process expire_cancelling replay
recover_expired_lease routing now db =
    if not (is_expired now db.process)
    then ok (unchanged db)
    else if is_cancelling db.process.status || is_cancelling_execution db.execution.status
    then ok (expire_cancelling now db)
    else if not db.process.safe_replay
    then fail_and_route routing "indeterminate-side-effect" "indeterminate" now db
    else if leb db.process.max_recoveries db.process.recovery_count
    then fail_and_route routing "recovery-exhausted" "recovery-exhausted" now db
    else ok (replay now db)

-- `restart_process` past its receipt of an earlier run of the same command.
unfoldable pub restart_process : String → ℕ → Db → Result Fault (Done (Unit {0}))
restart_process idempotency_key expected db = do
  refuse (idempotency_key == "") Transaction.command_invalid
  require (db.process.fencing_generation == expected) Transaction.command_fence_conflict
  refuse (is_terminal db.process.status) Transaction.control_terminal_immutable
  if_written (restart_row expected db.process)
      (λ p. ok (record { db = with_process db p; effects = wake ∷ receipt ∷ []; reply = tt }))
      (err Transaction.command_fence_conflict)

-- The three statements that cancel the rows of an Execution, in their order.
unfoldable pub cancel_process : ℕ → Process → Process
cancel_process now p =
    let fenced = if_written (fence_idle_row p) (λ q. q) p in
    let unheld = if_written (cancel_unheld_row now fenced) (λ q. q) fenced in
    if_written (fence_held_row unheld) (λ q. q) unheld
