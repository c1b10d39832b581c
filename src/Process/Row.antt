-- ===== src/Process/Row.antt =====
-- The columns of `mkb_processes` and `mkb_executions` that decide something in the transactions (the
-- texts of errors and the times of display are left out), and the
-- status sets of src/runtime/workflow/constants.py.
use myknowledgebase.Prelude.{ℕ, String, Bool, true, false, Option, none, some, not, ◌==◌, string_eq}

-- `ProcessStatus` of src/contracts/common/models.py.
pub data Status : Type 0 where
  ready claimed running retry_wait succeeded failed cancelling cancelled : Status

-- `ExecutionStatus` of src/contracts/common/models.py.
pub data ExecutionStatus : Type 0 where
  created ready running waiting cancelling succeeded failed cancelled : ExecutionStatus

pub data Pool : Type 0 where
  local_inference non_interactive embed : Pool

-- Times are instants that are compared and moved forward only.
pub record Process : Type 0 where
  pub team_uuid : String
  pub task_uuid : String
  pub execution_uuid : String
  pub process_uuid : String
  pub status : Status
  pub row_revision : ℕ
  pub fencing_generation : ℕ
  pub delivery_count : ℕ
  pub retry_count : ℕ
  pub max_retries : ℕ
  pub recovery_count : ℕ
  pub max_recoveries : ℕ
  pub claim_token_hash : Option String
  pub lease_owner : Option String
  pub lease_expires_at : Option ℕ
  pub heartbeat_at : Option ℕ
  pub started_at : Option ℕ
  pub completed_at : Option ℕ
  pub available_at : ℕ
  pub next_retry_at : Option ℕ
  pub deadline_at : Option ℕ
  pub dispatch_admitted : Bool
  pub dispatch_pool : Option Pool
  pub accepted_outcome_digest : Option String
  pub output_manifest_ref : Option String
  pub output_manifest_digest : Option String
  pub proof_ref : Option String
  pub proof_digest : Option String
  pub error_code : Option String
  pub failure_disposition : Option String
  pub cleanup_eligible_at : Option ℕ
  pub cleanup_fence_digest : Option String
  pub safe_replay : Bool

pub record Execution : Type 0 where
  pub status : ExecutionStatus
  pub waiting_reason : Option String
  pub waiting_ref : Option String
  pub next_wake_at : Option ℕ
  pub started_at : Option ℕ

-- `_TERMINAL_PROCESS_STATUSES`
abbrev pub is_terminal : Status → Bool
is_terminal succeeded = true
is_terminal failed = true
is_terminal cancelled = true
is_terminal _ = false

-- `_ACTIVE_PROCESS_STATUSES`
abbrev pub is_active : Status → Bool
is_active ready = true
is_active claimed = true
is_active running = true
is_active retry_wait = true
is_active cancelling = true
is_active _ = false

-- `_TERMINAL_EXECUTION_STATUSES`
abbrev pub is_terminal_execution : ExecutionStatus → Bool
is_terminal_execution ExecutionStatus.succeeded = true
is_terminal_execution ExecutionStatus.failed = true
is_terminal_execution ExecutionStatus.cancelled = true
is_terminal_execution _ = false

abbrev pub is_ready : Status → Bool
is_ready ready = true
is_ready _ = false

abbrev pub is_claimed : Status → Bool
is_claimed claimed = true
is_claimed _ = false

abbrev pub is_running : Status → Bool
is_running running = true
is_running _ = false

abbrev pub is_retry_wait : Status → Bool
is_retry_wait retry_wait = true
is_retry_wait _ = false

abbrev pub is_cancelling : Status → Bool
is_cancelling cancelling = true
is_cancelling _ = false

-- `status IN ('claimed','running')`
abbrev pub is_held : Status → Bool
is_held claimed = true
is_held running = true
is_held _ = false

-- `status IN ('ready','retry_wait')`
abbrev pub is_idle : Status → Bool
is_idle ready = true
is_idle retry_wait = true
is_idle _ = false

abbrev pub is_cancelling_execution : ExecutionStatus → Bool
is_cancelling_execution ExecutionStatus.cancelling = true
is_cancelling_execution _ = false

-- `e.status IN ('ready','running')`
abbrev pub is_open_execution : ExecutionStatus → Bool
is_open_execution ExecutionStatus.ready = true
is_open_execution ExecutionStatus.running = true
is_open_execution _ = false

-- `status IN ('ready','running','waiting')`
abbrev pub may_wait : ExecutionStatus → Bool
may_wait ExecutionStatus.ready = true
may_wait ExecutionStatus.running = true
may_wait ExecutionStatus.waiting = true
may_wait _ = false

abbrev pub is_waiting_execution : ExecutionStatus → Bool
is_waiting_execution ExecutionStatus.waiting = true
is_waiting_execution _ = false

abbrev pub is_ready_execution : ExecutionStatus → Bool
is_ready_execution ExecutionStatus.ready = true
is_ready_execution _ = false

-- Whether an optional string counts as true: it is there and not empty.
abbrev pub truthy : Option String → Bool
truthy none = false
truthy (some s) = not (s == "")

-- `COALESCE(a, b)`
abbrev pub coalesce {ℓ} : {A : Type ℓ} → Option A → Option A → Option A
coalesce none b = b
coalesce (some a) b = some a
