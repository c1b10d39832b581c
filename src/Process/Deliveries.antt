-- ===== src/Process/Deliveries.antt =====
-- How often a Process is delivered.
use myknowledgebase.Prelude.{ℕ, ◌+◌, ◌≤◌, ◌≡◌, true, false, List, all, not, arith}
use myknowledgebase.Process.Row
use myknowledgebase.Process.Row.{Process, Status, is_idle}
use myknowledgebase.Process.Updates.{
  admit_row, release_row, claim_row, start_row, heartbeat_row, succeed_row, retry_row, fail_row,
  promote_row, expire_cancelling_row, recover_row, restart_row, fence_idle_row, fence_held_row,
  cancel_unheld_row, clean_row,
}
use myknowledgebase.Process.Transaction.{Db}
use myknowledgebase.Process.Step
use myknowledgebase.Process.Step.{Update, Deployment, Command, run, is_restart}
use myknowledgebase.Process.Step.Histories.{run-keeps_unrestarted}
use myknowledgebase.Process.Sound.{updated_by}

-- The delivery that a row which does not wait for a claim may stand on.
abbrev standing : Status → ℕ
standing Row.ready = 0
standing Row.retry_wait = 0
standing _ = 1

-- Every delivery but the standing one ended in a retry or a recovery, and both are in their budgets.
abbrev pub Budgeted : (retries recoveries : ℕ) → Process → Type 0
Budgeted retries recoveries p =
    (p.delivery_count ≤ p.retry_count + p.recovery_count + standing p.status)
    × (p.retry_count ≤ p.max_retries)
    × (p.recovery_count ≤ p.max_recoveries)
    × (p.max_retries ≡ retries)
    × (p.max_recoveries ≡ recoveries)

Update-Budgeted : (m n : ℕ) (p q : Process) → Budgeted m n p → Update false p q → Budgeted m n q
unfolding admit_row release_row claim_row start_row heartbeat_row succeed_row retry_row fail_row
    promote_row expire_cancelling_row recover_row restart_row fence_idle_row fence_held_row
    cancel_unheld_row clean_row
Update-Budgeted m n p q s (Step.admits pool is h) =
    updated_by (Budgeted m n) _ _ h (λ e. ground arith)
Update-Budgeted m n p q s (Step.releases h) = updated_by (Budgeted m n) _ _ h (λ e. ground arith)
Update-Budgeted m n p q s (Step.claims hash owner expires now revision h) =
    updated_by (Budgeted m n) _ _ h (λ e. ground arith)
Update-Budgeted m n p q s (Step.starts generation now h) =
    updated_by (Budgeted m n) _ _ h (λ e. ground arith)
Update-Budgeted m n p q s (Step.beats generation expires now h) =
    updated_by (Budgeted m n) _ _ h (λ e. ground arith)
Update-Budgeted m n p q s (Step.succeeds o generation now proved h) =
    updated_by (Budgeted m n) _ _ h (λ e. ground arith)
Update-Budgeted m n p q s (Step.retries digest code wake generation less h) =
    updated_by (Budgeted m n) _ _ h (λ e. ground arith)
Update-Budgeted m n p q s (Step.fails code disposition digest generation now h) =
    updated_by (Budgeted m n) _ _ h (λ e. ground arith)
Update-Budgeted m n p q s (Step.promotes now revision h) =
    updated_by (Budgeted m n) _ _ h (λ e. ground arith)
Update-Budgeted m n p q s (Step.expires generation now h) =
    updated_by (Budgeted m n) _ _ h (λ e. ground arith)
Update-Budgeted m n p q s (Step.recovers generation now less h) =
    updated_by (Budgeted m n) _ _ h (λ e. ground arith)
Update-Budgeted m n p q s (Step.restarts generation allowed h) = cc
Update-Budgeted m n p q s (Step.fences_idle h) = updated_by (Budgeted m n) _ _ h (λ e. ground arith)
Update-Budgeted m n p q s (Step.fences_held h) = updated_by (Budgeted m n) _ _ h (λ e. ground arith)
Update-Budgeted m n p q s (Step.cancels now h) = updated_by (Budgeted m n) _ _ h (λ e. ground arith)
Update-Budgeted m n p q s (Step.cleans digest now h) =
    updated_by (Budgeted m n) _ _ h (λ e. ground arith)

-- In a history without operator restarts a Process that starts unclaimed and with no retry or
-- recovery spent is delivered at most once more than its retry and recovery budgets together.
pub run-deliveries :
    (d : Deployment) (cs : List (Command × ℕ)) (db : Db)
    → db.process.status ≡ Row.ready
    → db.process.delivery_count ≡ 0
    → db.process.retry_count ≡ 0
    → db.process.recovery_count ≡ 0
    → all (λ (c : Command × ℕ). not (is_restart c.0)) cs ≡ true
    → (run d cs db).process.delivery_count ≤ 1 + db.process.max_retries + db.process.max_recoveries
run-deliveries d cs db ready none_yet retries recoveries unrestarted =
    let m = db.process.max_retries in
    let n = db.process.max_recoveries in
    let kept =
      run-keeps_unrestarted (Budgeted m n) d cs db unrestarted (Update-Budgeted m n)
        (ground arith) in
    ground (arith, kept)
