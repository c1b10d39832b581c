-- ===== src/Process/Updates.antt =====
-- One function for each UPDATE statement on `mkb_processes`: the row it writes when its WHERE holds,
-- and nothing when it does not.
use myknowledgebase.Prelude.{
  ℕ, suc, String, Bool, true, false, Option, none, some, not, ◌&&◌, ◌==◌, string_eq, nat_eq, leb,
  ltb, is_some,
}
use myknowledgebase.Process.Row
use myknowledgebase.Process.Row.{
  Pool, Process, Status, is_ready, is_claimed, is_running, is_retry_wait, is_cancelling, is_held,
  is_idle, is_terminal, coalesce,
}

abbrev pub updated_if {ℓ} : {A : Type ℓ} → Bool → A → Option A
updated_if true a = some a
updated_if false a = none

-- A time that is set and not after `now`.
abbrev pub due : Option ℕ → ℕ → Bool
due none now = false
due (some t) now = leb t now

-- A time that is set and after `now`.
abbrev pub after : Option ℕ → ℕ → Bool
after none now = false
after (some t) now = ltb now t

-- Both of SQL's `=` on a column that may be NULL: NULL equals nothing.
abbrev pub same_ref : Option String → String → Bool
same_ref none s = false
same_ref (some r) s = r == s

-- The admission of `_admit_one_tx`, and the release of a ready row's reservation under the gate.
unfoldable pub admit_row : Option Pool → Process → Option Process
admit_row pool p =
    updated_if (not p.dispatch_admitted)
      (record p { dispatch_admitted = true; dispatch_pool = pool })

unfoldable pub release_row : Process → Option Process
release_row p =
    updated_if (is_ready p.status && p.dispatch_admitted)
      (record p { dispatch_admitted = false; dispatch_pool = none })

unfoldable pub claim_row : String → String → ℕ → ℕ → ℕ → Process → Option Process
claim_row token_hash owner expires now revision p =
    updated_if (is_ready p.status && (p.row_revision == revision) && leb p.available_at now)
      (record p {
        status = Row.claimed;
        claim_token_hash = some token_hash;
        lease_owner = some owner;
        lease_expires_at = some expires;
        fencing_generation = suc p.fencing_generation;
        delivery_count = suc p.delivery_count;
        row_revision = suc p.row_revision;
      })

unfoldable pub start_row : ℕ → ℕ → Process → Option Process
start_row generation now p =
    updated_if (is_claimed p.status && (p.fencing_generation == generation)) (record p {
      status = Row.running;
      started_at = coalesce p.started_at (some now);
      heartbeat_at = some now;
      row_revision = suc p.row_revision;
    })

unfoldable pub heartbeat_row : ℕ → ℕ → ℕ → Process → Option Process
heartbeat_row generation expires now p =
    updated_if
      (is_running p.status && (p.fencing_generation == generation) && after p.lease_expires_at now)
      (record p {
        heartbeat_at = some now;
        lease_expires_at = some expires;
        row_revision = suc p.row_revision;
      })

unfoldable pub succeed_row :
    (digest manifest_ref manifest_digest proof proof_digest : Option String)
    → ℕ
    → ℕ
    → Process
    → Option Process
succeed_row digest manifest_ref manifest_digest proof proof_digest generation now p =
    updated_if (is_running p.status && (p.fencing_generation == generation)) (record p {
      status = Row.succeeded;
      accepted_outcome_digest = digest;
      output_manifest_ref = manifest_ref;
      output_manifest_digest = manifest_digest;
      proof_ref = proof;
      proof_digest = proof_digest;
      error_code = none;
      claim_token_hash = none;
      lease_owner = none;
      lease_expires_at = none;
      heartbeat_at = none;
      completed_at = some now;
      row_revision = suc p.row_revision;
    })

unfoldable pub retry_row : String → String → ℕ → ℕ → Process → Option Process
retry_row digest code wake generation p =
    updated_if (is_running p.status && (p.fencing_generation == generation)) (record p {
      status = Row.retry_wait;
      accepted_outcome_digest = some digest;
      retry_count = suc p.retry_count;
      next_retry_at = some wake;
      available_at = wake;
      error_code = some code;
      failure_disposition = some "retryable";
      claim_token_hash = none;
      lease_owner = none;
      lease_expires_at = none;
      heartbeat_at = none;
      dispatch_admitted = false;
      dispatch_pool = none;
      row_revision = suc p.row_revision;
    })

unfoldable pub fail_row : String → String → Option String → ℕ → ℕ → Process → Option Process
fail_row code disposition digest generation now p =
    updated_if (not (is_terminal p.status) && (p.fencing_generation == generation)) (record p {
      status = Row.failed;
      accepted_outcome_digest = coalesce digest p.accepted_outcome_digest;
      error_code = some code;
      failure_disposition = some disposition;
      claim_token_hash = none;
      lease_owner = none;
      lease_expires_at = none;
      heartbeat_at = none;
      completed_at = some now;
      row_revision = suc p.row_revision;
    })

unfoldable pub promote_row : ℕ → ℕ → Process → Option Process
promote_row now revision p =
    updated_if (is_retry_wait p.status && due p.next_retry_at now && (p.row_revision == revision))
      (record p {
        status = Row.ready;
        available_at = now;
        next_retry_at = none;
        row_revision = suc p.row_revision;
      })

-- The lease of a cancelling Process has expired.
unfoldable pub expire_cancelling_row : ℕ → ℕ → Process → Option Process
expire_cancelling_row generation now p =
    updated_if (is_cancelling p.status && (p.fencing_generation == generation)) (record p {
      status = Row.cancelled;
      claim_token_hash = none;
      lease_owner = none;
      lease_expires_at = none;
      heartbeat_at = none;
      completed_at = some now;
      row_revision = suc p.row_revision;
    })

unfoldable pub recover_row : ℕ → ℕ → Process → Option Process
recover_row generation now p =
    updated_if
      (is_held p.status && (p.fencing_generation == generation) && due p.lease_expires_at now)
      (record p {
        status = Row.ready;
        claim_token_hash = none;
        lease_owner = none;
        lease_expires_at = none;
        heartbeat_at = none;
        fencing_generation = suc p.fencing_generation;
        recovery_count = suc p.recovery_count;
        available_at = now;
        dispatch_admitted = false;
        dispatch_pool = none;
        row_revision = suc p.row_revision;
      })

-- `status IN ('claimed','running','retry_wait')`
abbrev pub is_restartable : Status → Bool
is_restartable Row.claimed = true
is_restartable Row.running = true
is_restartable Row.retry_wait = true
is_restartable _ = false

unfoldable pub restart_row : ℕ → Process → Option Process
restart_row generation p =
    updated_if (is_restartable p.status && (p.fencing_generation == generation)) (record p {
      status = Row.ready;
      claim_token_hash = none;
      lease_owner = none;
      lease_expires_at = none;
      heartbeat_at = none;
      fencing_generation = suc p.fencing_generation;
      row_revision = suc p.row_revision;
    })

-- The first and the third statement of the cancellation of a tree; the third is also the statement of the
-- cancellation of a task in src/runtime/task/task_commands.py.
unfoldable pub fence_idle_row : Process → Option Process
fence_idle_row p = updated_if (is_idle p.status) (record p {
  status = Row.cancelling;
  fencing_generation = suc p.fencing_generation;
  row_revision = suc p.row_revision;
})

unfoldable pub fence_held_row : Process → Option Process
fence_held_row p = updated_if (is_held p.status) (record p {
  status = Row.cancelling;
  fencing_generation = suc p.fencing_generation;
  row_revision = suc p.row_revision;
})

-- The second statement: a cancelling row that no lease holds is cancelled at once.
unfoldable pub cancel_unheld_row : ℕ → Process → Option Process
cancel_unheld_row now p =
    updated_if
      (is_cancelling p.status && not (is_some p.lease_owner) && not (is_some p.claim_token_hash))
      (record p {
        status = Row.cancelled;
        completed_at = some now;
        claim_token_hash = none;
        lease_owner = none;
        lease_expires_at = none;
        heartbeat_at = none;
        row_revision = suc p.row_revision;
      })

-- The mark of `src/runtime/workflow/runtime_repair.py` on a terminal row that may be cleaned up.
unfoldable pub clean_row : String → ℕ → Process → Option Process
clean_row digest now p =
    updated_if (is_terminal p.status && not (is_some p.cleanup_eligible_at)) (record p {
      cleanup_eligible_at = some now;
      cleanup_fence_digest = some digest;
      row_revision = suc p.row_revision;
    })
