-- ===== src/Process/Outcomes.antt =====
-- `accept_outcome` of src/runtime/workflow/runtime_outcome.py and `_assert_outcome_identity` of
-- src/runtime/workflow/runtime_core.py.
pub mod Repeated
use myknowledgebase.Prelude.{
  ℕ, ◌+◌, String, Bool, true, false, Option, none, some, List, [], ◌∷◌, ◌++◌, not, ◌&&◌, ◌||◌, ◌==◌,
  nat_eq, string_eq, option_eq, ltb, Result, ok, err, ◌>>=◌, ◌>>◌, require, refuse, if◌then◌else◌,
  of_option,
}
use myknowledgebase.Process.Row
use myknowledgebase.Process.Row.{
  Process, Execution, ExecutionStatus, is_terminal, is_running, is_terminal_execution,
  is_cancelling_execution, may_wait, truthy,
}
use myknowledgebase.Process.Updates.{succeed_row, retry_row}
use myknowledgebase.Process.Transaction
use myknowledgebase.Process.Transaction.{
  Db, Done, if_written, Effect, Fault, event, route, wake, refresh_counts,
}
use myknowledgebase.Process.Claims.{fail_process, with_process}

pub data Disposition : Type 0 where
  succeeded failed retryable_failure waiting : Disposition

-- `ProcessOutcome` of src/contracts/runtime/models.py.
pub record Outcome : Type 0 where
  pub team_uuid : String
  pub task_uuid : String
  pub execution_uuid : String
  pub process_uuid : String
  pub fencing_generation : ℕ
  pub disposition : Disposition
  pub outcome_digest : String
  pub output_manifest_ref : Option String
  pub output_manifest_digest : Option String
  pub proof_ref : Option String
  pub proof_digest : Option String
  pub error_code : Option String
  pub error_message : Option String

-- `_assert_outcome_identity`
unfoldable pub assert_identity : Process → Outcome → Result Fault (Unit {0})
assert_identity p o = do
  require
      ((p.team_uuid == o.team_uuid)
        && (p.task_uuid == o.task_uuid)
        && (p.execution_uuid == o.execution_uuid)
        && (p.process_uuid == o.process_uuid))
      Transaction.outcome_identity_mismatch
  require (p.fencing_generation == o.fencing_generation) Transaction.stale_process_fence

abbrev pub is_proved : Outcome → Bool
is_proved o =
    truthy o.output_manifest_ref
    && truthy o.output_manifest_digest
    && truthy o.proof_ref
    && truthy o.proof_digest

-- The Execution of a Process that waits for its retry.
abbrev pub wait_execution : String → ℕ → Execution → Execution
wait_execution process_uuid wake_at e =
    if may_wait e.status
    then record e {
      status = ExecutionStatus.waiting;
      waiting_reason = some "retry_due";
      waiting_ref = some process_uuid;
      next_wake_at = some wake_at;
    }
    else e

-- A failure is written and its Process routed on.
abbrev pub fail_and_route : String → String → Option String → ℕ → Db → Result Fault (Done Bool)
fail_and_route code disposition digest now db = do
  done ← fail_process code disposition digest db.process now db
  ok (record {
    db = done.db;
    effects = done.effects ++ (route Transaction.failed (some code) ∷ refresh_counts ∷ []);
    reply = true;
  })

-- A text that is there once the outcome has been found to carry it.
abbrev pub text : Option String → String
text none = ""
text (some s) = s

-- The committer of the deployment, `none` where there is none.
abbrev pub Committer : Type 0
Committer = Option (Outcome → Result Fault (Unit {0}))

abbrev pub commit : Committer → Outcome → Result Fault (Unit {0})
commit none o = ok tt
commit (some validate_and_commit) o = validate_and_commit o

unfoldable pub accept_success : Committer → Outcome → ℕ → Db → Result Fault (Done Bool)
unfolding fail_process
accept_success committer o now db =
    if not (is_proved o)
    then fail_and_route "outcome-proof-invalid" "integrity" none now db
    else (commit committer o
        >> if_written
            (succeed_row (some o.outcome_digest) o.output_manifest_ref o.output_manifest_digest
              o.proof_ref o.proof_digest o.fencing_generation now db.process)
            (λ p. ok (record {
              db = with_process db p;
              effects =
                  event Row.running Row.succeeded
                  ∷ route Transaction.succeeded none
                  ∷ refresh_counts
                  ∷ [];
              reply = true;
            }))
            (err Transaction.stale_process_fence))

-- `backoff` is the random delay before the next attempt.
unfoldable pub accept_retryable : (backoff : ℕ) → Outcome → ℕ → Db → Result Fault (Done Bool)
unfolding fail_process
accept_retryable backoff o now db =
    if ltb db.process.retry_count db.process.max_retries
    then if_written
        (retry_row o.outcome_digest (text o.error_code) (now + backoff) o.fencing_generation
          db.process)
        (λ p. ok (record {
          db = record {
            process = p;
            execution = wait_execution db.process.process_uuid (now + backoff) db.execution;
          };
          effects = wake ∷ event Row.running Row.retry_wait ∷ refresh_counts ∷ [];
          reply = true;
        }))
        (err Transaction.stale_process_fence)
    else fail_and_route "retry-exhausted" "retry-exhausted" (some o.outcome_digest) now db

unfoldable pub accept_failure : Outcome → ℕ → Db → Result Fault (Done Bool)
unfolding fail_process
accept_failure o now db =
    fail_and_route (text o.error_code) "non-retryable" (some o.outcome_digest) now db

unfoldable pub accept_disposition :
    Disposition → Committer → ℕ → Outcome → ℕ → Db → Result Fault (Done Bool)
unfolding accept_success accept_retryable accept_failure
accept_disposition succeeded committer backoff o now db = accept_success committer o now db
accept_disposition retryable_failure committer backoff o now db = do
  require (truthy o.error_code && truthy o.error_message) Transaction.outcome_error_required
  accept_retryable backoff o now db
accept_disposition failed committer backoff o now db = do
  require (truthy o.error_code && truthy o.error_message) Transaction.outcome_error_required
  accept_failure o now db
accept_disposition waiting committer backoff o now db = err Transaction.unsupported_process_outcome

-- An outcome of a terminal Process: the one it accepted changes nothing, any other raises.
unfoldable pub accept_terminal : Outcome → Db → Result Fault (Done Bool)
accept_terminal o db =
    if db.process.accepted_outcome_digest == some o.outcome_digest
    then ok (record { db = db; effects = []; reply = false })
    else err Transaction.stale_process_outcome

-- An outcome of a Process that is not terminal.
unfoldable pub accept_running : Committer → ℕ → Outcome → ℕ → Db → Result Fault (Done Bool)
unfolding accept_disposition
accept_running committer backoff o now db = do
  require (is_running db.process.status) Transaction.process_not_running
  refuse (is_terminal_execution db.execution.status) Transaction.terminal_outcome_fenced
  refuse (is_cancelling_execution db.execution.status) Transaction.execution_cancelling
  accept_disposition o.disposition committer backoff o now db

-- `canonical` is the digest that the outcome should carry.
unfoldable pub accept_outcome :
    (canonical : Outcome → String)
    → Option (Outcome → Result Fault (Unit {0}))
    → ℕ
    → Outcome
    → ℕ
    → Db
    → Result Fault (Done Bool)
unfolding assert_identity accept_terminal accept_running
accept_outcome canonical committer backoff o now db = do
  require (canonical o == o.outcome_digest) Transaction.outcome_digest_invalid
  assert_identity db.process o
  if is_terminal db.process.status
      then accept_terminal o db
      else accept_running committer backoff o now db
