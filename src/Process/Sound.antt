-- ===== src/Process/Sound.antt =====
-- The invariant of a row of mkb_processes, as the UPDATE statements of the runtime keep it.
use myknowledgebase.Prelude.{
  ℕ, ◌≤◌, ◌≡◌, refl, Bool, true, false, some, is_some, List, arith, subst,
}
use myknowledgebase.Process.Row
use myknowledgebase.Process.Row.{Process, is_held, is_terminal, is_cancelling, truthy}
use myknowledgebase.Process.Updates.{
  updated_if, admit_row, release_row, claim_row, start_row, heartbeat_row, succeed_row, retry_row,
  fail_row, promote_row, expire_cancelling_row, recover_row, restart_row, fence_idle_row,
  fence_held_row, cancel_unheld_row, clean_row,
}
use myknowledgebase.Process.Transaction.{Db}
use myknowledgebase.Process.Step
use myknowledgebase.Process.Step.{Update, Updates, Deployment, Command, perform, run, is_restart}
use myknowledgebase.Process.Step.Histories.{run-keeps}

-- A row is held by a lease that has an owner, a token and an expiry exactly while it is claimed or
-- running (a cancelling row keeps the one it had); the budgets are kept; a waiting retry has a
-- time; a succeeded row carries its outcome, its output and its proof; a row has a completion time
-- exactly when it is terminal; every delivery took a fence of its own.
pub record IsSound (p : Process) : Type 0 where
  pub leased :
      is_held p.status ≡ true
      → (is_some p.lease_owner ≡ true)
        × (is_some p.claim_token_hash ≡ true)
        × (is_some p.lease_expires_at ≡ true)
  pub free :
      is_held p.status ≡ false
      → is_cancelling p.status ≡ false
      → (is_some p.lease_owner ≡ false)
        × (is_some p.claim_token_hash ≡ false)
        × (is_some p.lease_expires_at ≡ false)
  pub retries : p.retry_count ≤ p.max_retries
  pub recoveries : p.recovery_count ≤ p.max_recoveries
  pub due_at : p.status ≡ Row.retry_wait → is_some p.next_retry_at ≡ true
  pub proofs :
      p.status ≡ Row.succeeded
      → (is_some p.accepted_outcome_digest ≡ true)
        × (truthy p.output_manifest_ref ≡ true)
        × (truthy p.proof_ref ≡ true)
  pub completed : is_some p.completed_at ≡ is_terminal p.status
  pub fenced : p.delivery_count ≤ p.fencing_generation

pub updated_by :
    (P : Process → Type 0) (b : Bool) (a : Process) {q : Process}
    → updated_if b a ≡ some q
    → (b ≡ true → P a)
    → P q
updated_by P true a h f = subst P (cc) (f refl)
updated_by P false a h f = cc

Update-IsSound : {b : Bool} (p q : Process) → IsSound p → Update b p q → IsSound q
unfolding admit_row release_row claim_row start_row heartbeat_row succeed_row retry_row fail_row
    promote_row expire_cancelling_row recover_row restart_row fence_idle_row fence_held_row
    cancel_unheld_row clean_row
Update-IsSound p q s (Step.admits pool is h) = updated_by IsSound _ _ h (λ e. ground arith)
Update-IsSound p q s (Step.releases h) = updated_by IsSound _ _ h (λ e. ground arith)
Update-IsSound p q s (Step.claims hash owner expires now revision h) =
    updated_by IsSound _ _ h (λ e. ground arith)
Update-IsSound p q s (Step.starts generation now h) = updated_by IsSound _ _ h (λ e. ground arith)
Update-IsSound p q s (Step.beats generation expires now h) =
    updated_by IsSound _ _ h (λ e. ground arith)
Update-IsSound p q s (Step.succeeds o generation now proved h) =
    updated_by IsSound _ _ h (λ e. ground arith)
Update-IsSound p q s (Step.retries digest code wake generation less h) =
    updated_by IsSound _ _ h (λ e. ground arith)
Update-IsSound p q s (Step.fails code disposition digest generation now h) =
    updated_by IsSound _ _ h (λ e. ground arith)
Update-IsSound p q s (Step.promotes now revision h) = updated_by IsSound _ _ h (λ e. ground arith)
Update-IsSound p q s (Step.expires generation now h) = updated_by IsSound _ _ h (λ e. ground arith)
Update-IsSound p q s (Step.recovers generation now less h) =
    updated_by IsSound _ _ h (λ e. ground arith)
Update-IsSound p q s (Step.restarts generation allowed h) =
    updated_by IsSound _ _ h (λ e. ground arith)
Update-IsSound p q s (Step.fences_idle h) = updated_by IsSound _ _ h (λ e. ground arith)
Update-IsSound p q s (Step.fences_held h) = updated_by IsSound _ _ h (λ e. ground arith)
Update-IsSound p q s (Step.cancels now h) = updated_by IsSound _ _ h (λ e. ground arith)
Update-IsSound p q s (Step.cleans digest now h) = updated_by IsSound _ _ h (λ e. ground arith)

-- A row that is sound stays so through every history of claims, starts, heartbeats, outcomes,
-- retries, recoveries, operator restarts, cancellations and cleanup marks, in any order, at any times, with any
-- arguments and whatever happens to the Execution.
-- Sound means: lease columns set exactly as the status asks, retries and recoveries within their
-- budgets, a time for a row that waits to retry, the proofs of a success, a completion time exactly on
-- a terminal row, and at most as many deliveries as the fencing generation.
pub run-IsSound :
    (d : Deployment) (cs : List (Command × ℕ)) (db : Db)
    → IsSound db.process
    → IsSound (run d cs db).process
run-IsSound d cs db s = run-keeps IsSound d cs db (λ b p q sound u. Update-IsSound p q sound u) s
