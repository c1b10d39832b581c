-- ===== src/Process/Samples.antt =====
-- One Process through a claim, a start, a retry, a second claim and a success.
use myknowledgebase.Prelude.{
  Bool, ℕ, ◌+◌, ◌≤◌, ◌≡◌, refl, true, false, none, some, List, [], ◌∷◌, ok, err, arith,
}
use myknowledgebase.Process.Row
use myknowledgebase.Process.Row.{Process, Execution, ExecutionStatus, is_terminal}
use myknowledgebase.Process.Updates.{
  admit_row, claim_row, start_row, heartbeat_row, succeed_row, retry_row, promote_row, restart_row,
  clean_row, fence_idle_row, fence_held_row, cancel_unheld_row,
}
use myknowledgebase.Process.Transaction
use myknowledgebase.Process.Transaction.{Db, Done, Effect, Fault}
use myknowledgebase.Process.Claims.{claimable, claim_candidate, mark_running, heartbeat}
use myknowledgebase.Process.Outcomes
use myknowledgebase.Process.Outcomes.{Outcome, accept_outcome}
use myknowledgebase.Process.Outcomes.Repeated.{accept_outcome-repeated}
use myknowledgebase.Process.Recovery.{recover_expired_lease, promote_due_retry}
use myknowledgebase.Process.Step.{
  Command, Deployment, run, perform, admit, claim, start, beat, finish, promote, cancel, clean_up,
  change,
}
use myknowledgebase.Process.Sound.{IsSound, run-IsSound}
use myknowledgebase.Process.Fence.{run-fence, run-stale}
use myknowledgebase.Process.Terminal.{Marked, run-Marked}
use myknowledgebase.Process.Recovery.{restart_process, cancel_process}
use myknowledgebase.Process.Recovery.Leases.{Recovered, way_of, recover_expired_lease-Recovered}
use myknowledgebase.Process.Recovery.Retries.{
  Addressed, Retried, accept_outcome-promote, restart_process-waiting,
}
use myknowledgebase.Process.Deliveries.{run-deliveries}

abbrev fresh : Db
fresh = record {
  process = record {
    team_uuid = "team";
    task_uuid = "task";
    execution_uuid = "execution";
    process_uuid = "process";
    status = Row.ready;
    row_revision = 0;
    fencing_generation = 0;
    delivery_count = 0;
    retry_count = 0;
    max_retries = 2;
    recovery_count = 0;
    max_recoveries = 3;
    claim_token_hash = none;
    lease_owner = none;
    lease_expires_at = none;
    heartbeat_at = none;
    started_at = none;
    completed_at = none;
    available_at = 0;
    next_retry_at = none;
    deadline_at = none;
    dispatch_admitted = false;
    dispatch_pool = none;
    accepted_outcome_digest = none;
    output_manifest_ref = none;
    output_manifest_digest = none;
    proof_ref = none;
    proof_digest = none;
    error_code = none;
    failure_disposition = none;
    cleanup_eligible_at = none;
    cleanup_fence_digest = none;
    safe_replay = true;
  };
  execution = record {
    status = ExecutionStatus.running;
    waiting_reason = none;
    waiting_ref = none;
    next_wake_at = none;
    started_at = none;
  };
}

abbrev retrying : Outcome
retrying = record {
  team_uuid = "team";
  task_uuid = "task";
  execution_uuid = "execution";
  process_uuid = "process";
  fencing_generation = 1;
  disposition = Outcomes.retryable_failure;
  outcome_digest = "d1";
  output_manifest_ref = none;
  output_manifest_digest = none;
  proof_ref = none;
  proof_digest = none;
  error_code = some "provider";
  error_message = some "no answer";
}

abbrev proved : Outcome
proved = record retrying {
  fencing_generation = 2;
  disposition = Outcomes.succeeded;
  outcome_digest = "d2";
  output_manifest_ref = some "out";
  output_manifest_digest = some "out-digest";
  proof_ref = some "proof";
  proof_digest = some "proof-digest";
  error_code = none;
  error_message = none;
}

-- Every outcome carries the digest that it should, and nothing is committed beside it.
abbrev plain : Deployment
plain = record { canonical = λ o. o.outcome_digest; committer = none }

abbrev first_half : List (Command × ℕ)
first_half =
    (admit none, 0)
    ∷ (claim "t1" "worker-1" 30 true true, 1)
    ∷ (start true 1, 2)
    ∷ (beat 1 30, 3)
    ∷ (finish 5 retrying, 4)
    ∷ (promote, 9)
    ∷ []

abbrev second_half : List (Command × ℕ)
second_half =
    (admit none, 10)
    ∷ (claim "t2" "worker-2" 30 true true, 10)
    ∷ (start true 2, 11)
    ∷ (finish 0 proved, 12)
    ∷ []

-- The first attempt ends in a retry, so that the row is ready again without its place in a pool.
first_attempt :
    ((run plain first_half fresh).process.status ≡ Row.ready)
    × ((run plain first_half fresh).process.retry_count ≡ 1)
    × ((run plain first_half fresh).process.dispatch_admitted ≡ false)
unfolding admit_row run perform claimable claim_candidate claim_row mark_running start_row heartbeat
    heartbeat_row accept_outcome promote_due_retry promote_row retry_row Outcomes.assert_identity
    Outcomes.accept_running Outcomes.accept_disposition Outcomes.accept_retryable
first_attempt = (refl, refl, refl)

-- The second attempt succeeds.
second_attempt : (run plain second_half (run plain first_half fresh)).process.status ≡ Row.succeeded
unfolding admit_row run perform claimable claim_candidate claim_row mark_running start_row heartbeat
    heartbeat_row accept_outcome promote_due_retry promote_row retry_row succeed_row
    Outcomes.assert_identity Outcomes.accept_running Outcomes.accept_disposition
    Outcomes.accept_retryable Outcomes.accept_success
second_attempt = refl

-- A row that a worker runs, and the one that its retryable failure leaves.
abbrev held : Db
held = record {
  process = record fresh.process {
    status = Row.running;
    fencing_generation = 1;
    delivery_count = 1;
    lease_owner = some "worker-1";
    claim_token_hash = some "t1";
    lease_expires_at = some 31;
    started_at = some 2;
    dispatch_admitted = true;
  };
  execution = fresh.execution;
}

abbrev succeeded_row : Process
succeeded_row = record held.process {
  status = Row.succeeded;
  fencing_generation = 2;
  accepted_outcome_digest = some "d2";
  output_manifest_ref = some "out";
  output_manifest_digest = some "out-digest";
  proof_ref = some "proof";
  proof_digest = some "proof-digest";
  claim_token_hash = none;
  lease_owner = none;
  lease_expires_at = none;
  heartbeat_at = none;
  completed_at = some 12;
  row_revision = 1;
}

abbrev finished : Db
finished = record held { process = succeeded_row }

abbrev waiting : Db
waiting = record {
  process = record fresh.process {
    status = Row.retry_wait;
    fencing_generation = 1;
    delivery_count = 1;
    retry_count = 1;
    next_retry_at = some 9;
    available_at = 9;
    accepted_outcome_digest = some "d1";
  };
  execution = record fresh.execution {
    status = ExecutionStatus.waiting;
    waiting_reason = some "retry_due";
    waiting_ref = some "process";
    next_wake_at = some 9;
  };
}

fresh-IsSound : IsSound fresh.process
fresh-IsSound = record {
  leased = λ e. cc;
  free = λ e f. (refl, refl, refl);
  retries = omega arith;
  recoveries = omega arith;
  due_at = λ e. cc;
  proofs = λ e. cc;
  completed = refl;
  fenced = omega arith;
}

run-IsSound_example : IsSound (run plain first_half fresh).process
run-IsSound_example = run-IsSound plain first_half fresh fresh-IsSound

run-deliveries_example : (run plain first_half fresh).process.delivery_count ≤ 1 + 2 + 3
run-deliveries_example = run-deliveries plain first_half fresh refl refl refl refl refl

run-fence_example :
    (held.process.fencing_generation ≤ (run plain second_half held).process.fencing_generation)
    × (held.process.delivery_count ≤ (run plain second_half held).process.delivery_count)
run-fence_example = run-fence plain second_half held

run-stale_example :
    ((e : Fault) × (accept_outcome plain.canonical plain.committer 5 retrying 20
          (run plain first_half finished)
        ≡ err e))
    × (mark_running true 1 20 (run plain first_half finished) ≡ err Transaction.stale_process_fence)
    × (perform plain (beat 1 30) 20 (run plain first_half finished) ≡ run plain first_half finished)
run-stale_example = run-stale plain first_half finished true retrying 5 30 20 (omega arith)

-- The Execution ends, its Process is marked, and nothing is marked twice.
abbrev cleaning : List (Command × ℕ)
cleaning =
    (change (record fresh.execution { status = ExecutionStatus.succeeded }), 20)
    ∷ (clean_up "fence" true, 90)
    ∷ (clean_up "late" true, 95)
    ∷ (cancel, 96)
    ∷ []

cleaned_row : (run plain cleaning finished).process ≡ record succeeded_row {
  cleanup_eligible_at = some 90;
  cleanup_fence_digest = some "fence";
  row_revision = 2;
}
unfolding run perform clean_row cancel_process fence_idle_row fence_held_row cancel_unheld_row
cleaned_row = refl

run-Marked_example : Marked succeeded_row (run plain cleaning finished).process
run-Marked_example = run-Marked plain cleaning finished refl

abbrev running_second : Db
running_second = record held { process = record held.process { fencing_generation = 2 } }

abbrev accepted : Done Bool
accepted = record {
  db = finished;
  effects =
      Transaction.event Row.running Row.succeeded
      ∷ Transaction.route Transaction.succeeded none
      ∷ Transaction.refresh_counts
      ∷ [];
  reply = true;
}

accepts_success :
    accept_outcome plain.canonical plain.committer 0 proved 12 running_second ≡ ok accepted
unfolding accept_outcome succeed_row Outcomes.assert_identity Outcomes.accept_running
    Outcomes.accept_disposition Outcomes.accept_success
accepts_success = refl

accept_outcome-repeated_example :
    accept_outcome plain.canonical plain.committer 7 proved 40 finished
    ≡ ok (record { db = finished; effects = []; reply = false })
accept_outcome-repeated_example =
    accept_outcome-repeated plain.canonical plain.committer 0 7 proved 12 40 running_second accepted
      refl accepts_success

addressed : Addressed plain.canonical retrying held.process held.execution
unfolding Outcomes.assert_identity
addressed = (refl, refl, refl, refl)

accept_outcome-promote_example :
    (done : Done Bool) × (accept_outcome plain.canonical plain.committer 5 retrying 4 held
      ≡ ok done)
    × Retried held (promote_due_retry 9 done.db).db 9
accept_outcome-promote_example =
    accept_outcome-promote plain.canonical plain.committer 5 retrying 4 9 held.process
      held.execution addressed refl refl (omega arith) (omega arith)

abbrev restarted : Done (Unit {0})
restarted = record {
  db = record waiting {
    process = record waiting.process {
      status = Row.ready;
      fencing_generation = 2;
      row_revision = 1;
    };
  };
  effects = Transaction.wake ∷ Transaction.receipt ∷ [];
  reply = tt;
}

restarts_waiting : restart_process "key" 1 waiting ≡ ok restarted
unfolding restart_process restart_row
restarts_waiting = refl

restart_process-waiting_example :
    (claimable true true 50 restarted.db ≡ false)
    × ((promote_due_retry 50 restarted.db).db ≡ restarted.db)
restart_process-waiting_example =
    restart_process-waiting "key" 1 waiting restarted true true 50 refl restarts_waiting

-- The lease of a row that runs, long expired.
recover_expired_lease-Recovered_example :
    Recovered (way_of held) (ok tt) held (recover_expired_lease (ok tt) 99 held)
recover_expired_lease-Recovered_example = recover_expired_lease-Recovered (ok tt) 99 held refl
