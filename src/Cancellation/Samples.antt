-- ===== src/Cancellation/Samples.antt =====
-- A root with one child, cancelled while the child waits and the root runs.
use myknowledgebase.Prelude.{◌≡◌, refl, String, true, false, Option, none, some, [], ◌∷◌, ok, Memᴰ}
use myknowledgebase.Process.Row
use myknowledgebase.Process.Row.{Process, ExecutionStatus}
use myknowledgebase.Process.Updates.{fence_idle_row, fence_held_row, cancel_unheld_row}
use myknowledgebase.Process.Recovery.{cancel_process}
use myknowledgebase.Cancellation.Tree
use myknowledgebase.Cancellation.Tree.{
  Store, Node, request_cancellation, cancel_tree, fence_all, fence_execution, converge_step,
  converge_cancellation,
}
use myknowledgebase.Cancellation.Stopped.{AllStopped, cancel_tree-stopped}
use myknowledgebase.Cancellation.Converged.{Quiet, request_cancellation-Quiet}

abbrev node : String → Option String → Node
node uuid parent = record {
  execution_uuid = uuid;
  root_execution_uuid = "root";
  parent_execution_uuid = parent;
  status = ExecutionStatus.running;
  cancel_requested_at = none;
  completed_at = none;
}

abbrev idle : Process
idle = record {
  team_uuid = "team";
  task_uuid = "task";
  execution_uuid = "child";
  process_uuid = "p1";
  status = Row.ready;
  row_revision = 0;
  fencing_generation = 0;
  delivery_count = 0;
  retry_count = 0;
  max_retries = 2;
  recovery_count = 0;
  max_recoveries = 3;
  claim_token_hash = none;
  lease_owner = none;
  lease_expires_at = none;
  heartbeat_at = none;
  started_at = none;
  completed_at = none;
  available_at = 0;
  next_retry_at = none;
  deadline_at = none;
  dispatch_admitted = false;
  dispatch_pool = none;
  accepted_outcome_digest = none;
  output_manifest_ref = none;
  output_manifest_digest = none;
  proof_ref = none;
  proof_digest = none;
  error_code = none;
  failure_disposition = none;
  cleanup_eligible_at = none;
  cleanup_fence_digest = none;
  safe_replay = true;
}

abbrev held : Process
held = record idle {
  execution_uuid = "root";
  process_uuid = "p2";
  status = Row.running;
  fencing_generation = 1;
  delivery_count = 1;
  claim_token_hash = some "t";
  lease_owner = some "worker";
  lease_expires_at = some 30;
}

abbrev before : Store
before = record {
  executions = node "child" (some "root") ∷ node "root" none ∷ [];
  processes = idle ∷ held ∷ [];
  gates = record { gate_execution_uuid = "child"; is_open = true } ∷ [];
  candidate_sets = record { producer_execution_uuid = "root"; staging_state = Tree.sealed } ∷ [];
}

-- The child has ended, the root waits for the worker that holds its Process.
abbrev after : Store
after = record {
  executions =
      record (node "child" (some "root")) {
        status = ExecutionStatus.cancelled;
        cancel_requested_at = some 7;
        completed_at = some 7;
      }
      ∷ record (node "root" none) {
        status = ExecutionStatus.cancelling;
        cancel_requested_at = some 7;
      }
      ∷ [];
  processes =
      record idle {
        status = Row.cancelled;
        fencing_generation = 1;
        row_revision = 2;
        completed_at = some 7;
      }
      ∷ record held { status = Row.cancelling; fencing_generation = 2; row_revision = 1 }
      ∷ [];
  gates = record { gate_execution_uuid = "child"; is_open = false } ∷ [];
  candidate_sets = record { producer_execution_uuid = "root"; staging_state = Tree.abandoned } ∷ [];
}

cancels_tree : cancel_tree true 7 (node "root" none) before ≡ ok (after, 2)
unfolding cancel_tree fence_all fence_execution converge_step converge_cancellation cancel_process
    fence_idle_row fence_held_row cancel_unheld_row
cancels_tree = refl

requests_cancellation : request_cancellation 7 "child" before ≡ ok (after, true)
unfolding request_cancellation cancel_tree fence_all fence_execution converge_step
    converge_cancellation cancel_process fence_idle_row fence_held_row cancel_unheld_row
requests_cancellation = refl

cancel_tree-stopped_example : AllStopped "root" after.processes
cancel_tree-stopped_example =
    cancel_tree-stopped true 7 (node "root" none) before (after, 2) (node "root" none) cancels_tree
      (Memᴰ.tail (Memᴰ.head refl)) refl

none_cancelled : Quiet before
none_cancelled e (Memᴰ.head p) c = cc
none_cancelled e (Memᴰ.tail (Memᴰ.head p)) c = cc
none_cancelled e (Memᴰ.tail (Memᴰ.tail m)) c = elim m [ ]

request_cancellation-Quiet_example : Quiet after
request_cancellation-Quiet_example =
    request_cancellation-Quiet 7 "child" before (after, true) none_cancelled requests_cancellation
