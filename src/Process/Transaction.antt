-- ===== src/Process/Transaction.antt =====
-- What a transaction on one Process reads and writes: its row, its Execution, and, in order, what it
-- asks of the other parts (events, the outbox, routing). One that raises writes nothing.
use myknowledgebase.Prelude.{String, Option, none, some, List}
use myknowledgebase.Process.Row.{Process, Execution, Status}

pub data Fault : Type 0 where
  invalid_lease_seconds outcome_digest_invalid outcome_identity_mismatch : Fault
  stale_process_fence stale_process_outcome process_not_running terminal_outcome_fenced : Fault
  execution_cancelling outcome_error_required unsupported_process_outcome : Fault
  command_fence_conflict command_invalid control_terminal_immutable : Fault
  refused_by : String → Fault

-- `WorkflowOutcomeSelector`, the two that a Process ends with.
pub data Selector : Type 0 where
  succeeded failed : Selector

pub data Effect : Type 0 where
  -- `_record_event_tx`, with the status before and after.
  event : Status → Status → Effect
  -- `_enqueue_tx` of `wake_process`.
  wake : Effect
  -- `_route_after_terminal_process_tx`
  route : Selector → Option String → Effect
  -- `write_pending_generation_evidence_tx`
  evidence : Effect
  -- `_refresh_execution_counts_tx`
  refresh_counts : Effect
  -- `_converge_cancellation_tx`
  converge : Effect
  -- `project_task_status_tx`
  project_task : Effect
  -- `_receipt_tx`
  receipt : Effect

pub record Db : Type 0 where
  pub process : Process
  pub execution : Execution

pub record Done {ℓ} (A : Type ℓ) : Type ℓ where
  pub db : Db
  pub effects : List Effect
  pub reply : A

-- What follows an UPDATE: the first with the row that it wrote, the second where its WHERE failed.
abbrev pub if_written {ℓ} : {B : Type ℓ} → Option Process → (Process → B) → B → B
if_written none f b = b
if_written (some p) f b = f p
