-- ===== src/Process/Claims.antt =====
-- The candidate of `claim_next`, `mark_running` and `heartbeat` of
-- src/runtime/workflow/runtime_core.py, and `_fail_process_tx` of runtime_outcome.py.
use myknowledgebase.Prelude.{
  ℕ, ◌+◌, String, Bool, true, false, Option, none, some, [], ◌∷◌, ◌++◌, ◌&&◌, ◌==◌, nat_eq,
  string_eq, leb, ltb, Result, ok, err, ◌>>=◌, ◌>>◌, require, if◌then◌else◌,
}
use myknowledgebase.Process.Row
use myknowledgebase.Process.Row.{
  Process, Execution, ExecutionStatus, is_ready, is_running, is_open_execution, is_ready_execution,
  coalesce,
}
use myknowledgebase.Process.Updates.{claim_row, start_row, heartbeat_row, fail_row}
use myknowledgebase.Process.Transaction
use myknowledgebase.Process.Transaction.{
  Db, Done, if_written, Effect, Fault, event, route, evidence, refresh_counts, project_task,
}

-- The row of the transaction after an UPDATE of its Process.
abbrev pub with_process : Db → Process → Db
with_process db p = record db { process = p }

-- `_fail_process_tx`: a failure under an older fence leaves the row alone, and one that a terminal
-- row refuses raises.
unfoldable pub fail_process :
    String → String → Option String → Process → ℕ → Db → Result Fault (Done (Unit {0}))
fail_process code disposition digest read now db =
    if_written (fail_row code disposition digest read.fencing_generation now db.process)
      (λ p. ok (record {
        db = with_process db p;
        effects = evidence ∷ event read.status Row.failed ∷ [];
        reply = tt;
      }))
      (if db.process.fencing_generation == read.fencing_generation
        then err Transaction.stale_process_fence
        else ok (record { db = db; effects = []; reply = tt }))

-- `deadline_at IS NOT NULL AND deadline_at < now`
abbrev pub past_deadline : Option ℕ → ℕ → Bool
past_deadline none now = false
past_deadline (some t) now = ltb t now

-- `_fail_expired_ready_tx`
unfoldable pub fail_expired_ready : ℕ → Db → Result Fault (Done (Unit {0}))
unfolding fail_process
fail_expired_ready now db = do
  done ← fail_process "deadline-exceeded-before-start" "deadline" none db.process now db
  ok (record done {
    effects =
        done.effects
        ++ (route Transaction.failed (some "deadline-exceeded-before-start") ∷ refresh_counts ∷ []);
  })

-- The columns that the selection of a candidate tests, its pool's room for a run left as `can_run`.
unfoldable pub claimable : (can_run task_open : Bool) → ℕ → Db → Bool
claimable can_run task_open now db =
    is_ready db.process.status
    && leb db.process.available_at now
    && db.process.dispatch_admitted
    && can_run
    && is_open_execution db.execution.status
    && task_open

-- What `claim_next` does with the candidate it selected: the lease it writes, or nothing to claim.
unfoldable pub claim_candidate : String → String → ℕ → ℕ → Db → Result Fault (Done Bool)
unfolding fail_expired_ready
claim_candidate token_hash owner seconds now db =
    if past_deadline db.process.deadline_at now
    then (fail_expired_ready now db >>= λ done.
        ok (record { db = done.db; effects = done.effects; reply = false }))
    else if_written
        (claim_row token_hash owner (now + seconds) now db.process.row_revision db.process)
        (λ p. ok (record {
          db = with_process db p;
          effects = event Row.ready Row.claimed ∷ [];
          reply = true;
        }))
        (ok (record { db = db; effects = []; reply = false }))

-- The Execution of a Process that starts.
abbrev pub start_execution : ℕ → Execution → Execution
start_execution now e =
    if is_ready_execution e.status
    then record e {
      status = ExecutionStatus.running;
      started_at = coalesce e.started_at (some now);
    }
    else e

unfoldable pub mark_running : (is_root : Bool) → ℕ → ℕ → Db → Result Fault (Done Bool)
mark_running is_root generation now db =
    if is_running db.process.status && (db.process.fencing_generation == generation)
    then ok (record { db = db; effects = []; reply = false })
    else if_written (start_row generation now db.process)
        (λ p. ok (record {
          db = record { process = p; execution = start_execution now db.execution };
          effects =
              (if is_root then project_task ∷ [] else []) ++ (event Row.claimed Row.running ∷ []);
          reply = true;
        }))
        (err Transaction.stale_process_fence)

unfoldable pub heartbeat : ℕ → ℕ → ℕ → Db → Result Fault (Done Bool)
heartbeat generation seconds now db = do
  require (leb 1 seconds && leb seconds 3600) Transaction.invalid_lease_seconds
  if_written (heartbeat_row generation (now + seconds) now db.process)
      (λ p. ok (record { db = with_process db p; effects = []; reply = true }))
      (ok (record { db = db; effects = []; reply = false }))
