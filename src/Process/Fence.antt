-- ===== src/Process/Fence.antt =====
-- The fencing generation of mkb_processes along a history.
use myknowledgebase.Prelude.{
  nat_eq, ◌==◌, ◌>>◌, require, Result, err, ℕ, ◌≤◌, ◌<◌, ◌≡◌, refl, Bool, true, false, List, arith,
}
use myknowledgebase.Process.Row.{Process}
use myknowledgebase.Process.Updates.{
  admit_row, release_row, claim_row, start_row, heartbeat_row, succeed_row, retry_row, fail_row,
  promote_row, expire_cancelling_row, recover_row, restart_row, fence_idle_row, fence_held_row,
  cancel_unheld_row, clean_row,
}
use myknowledgebase.Process.Transaction.{Db}
use myknowledgebase.Process.Transaction
use myknowledgebase.Process.Transaction.{Fault, Done}
use myknowledgebase.Process.Claims.{mark_running, heartbeat}
use myknowledgebase.Process.Outcomes.{Outcome, accept_outcome, assert_identity}
use myknowledgebase.Process.Step
use myknowledgebase.Process.Step.{Update, Deployment, Command, run, perform, beat, is_restart}
use myknowledgebase.Process.Step.Histories.{run-keeps}
use myknowledgebase.Process.Sound.{updated_by}

abbrev AtLeast : ℕ → ℕ → Process → Type 0
AtLeast g n p = (g ≤ p.fencing_generation) × (n ≤ p.delivery_count)

Update-AtLeast : {b : Bool} (g n : ℕ) (p q : Process) → AtLeast g n p → Update b p q → AtLeast g n q
unfolding admit_row release_row claim_row start_row heartbeat_row succeed_row retry_row fail_row
    promote_row expire_cancelling_row recover_row restart_row fence_idle_row fence_held_row
    cancel_unheld_row clean_row
Update-AtLeast g n p q s (Step.admits pool is h) =
    updated_by (AtLeast g n) _ _ h (λ e. ground arith)
Update-AtLeast g n p q s (Step.releases h) = updated_by (AtLeast g n) _ _ h (λ e. ground arith)
Update-AtLeast g n p q s (Step.claims hash owner expires now revision h) =
    updated_by (AtLeast g n) _ _ h (λ e. ground arith)
Update-AtLeast g n p q s (Step.starts generation now h) =
    updated_by (AtLeast g n) _ _ h (λ e. ground arith)
Update-AtLeast g n p q s (Step.beats generation expires now h) =
    updated_by (AtLeast g n) _ _ h (λ e. ground arith)
Update-AtLeast g n p q s (Step.succeeds o generation now proved h) =
    updated_by (AtLeast g n) _ _ h (λ e. ground arith)
Update-AtLeast g n p q s (Step.retries digest code wake generation less h) =
    updated_by (AtLeast g n) _ _ h (λ e. ground arith)
Update-AtLeast g n p q s (Step.fails code disposition digest generation now h) =
    updated_by (AtLeast g n) _ _ h (λ e. ground arith)
Update-AtLeast g n p q s (Step.promotes now revision h) =
    updated_by (AtLeast g n) _ _ h (λ e. ground arith)
Update-AtLeast g n p q s (Step.expires generation now h) =
    updated_by (AtLeast g n) _ _ h (λ e. ground arith)
Update-AtLeast g n p q s (Step.recovers generation now less h) =
    updated_by (AtLeast g n) _ _ h (λ e. ground arith)
Update-AtLeast g n p q s (Step.restarts generation allowed h) =
    updated_by (AtLeast g n) _ _ h (λ e. ground arith)
Update-AtLeast g n p q s (Step.fences_idle h) = updated_by (AtLeast g n) _ _ h (λ e. ground arith)
Update-AtLeast g n p q s (Step.fences_held h) = updated_by (AtLeast g n) _ _ h (λ e. ground arith)
Update-AtLeast g n p q s (Step.cancels now h) = updated_by (AtLeast g n) _ _ h (λ e. ground arith)
Update-AtLeast g n p q s (Step.cleans digest now h) =
    updated_by (AtLeast g n) _ _ h (λ e. ground arith)

lt_of_lt_of_le : {a b c : ℕ} → a < b → b ≤ c → a < c
lt_of_lt_of_le h k = omega arith

accept_stale :
    (d : Deployment) (backoff : ℕ) (o : Outcome) (now : ℕ) (db : Db)
    → o.fencing_generation < db.process.fencing_generation
    → (e : Fault) × (accept_outcome d.canonical d.committer backoff o now db ≡ err e)
unfolding accept_outcome assert_identity
accept_stale d backoff o now db old = refused _ _ _ _ (stale old)
  where
    refused :
        (a b c : Bool) (r : Result Fault (Done Bool))
        → c ≡ false
        → (e : Fault) × ((require a Transaction.outcome_digest_invalid
              >> ((require b Transaction.outcome_identity_mismatch
                    >> require c Transaction.stale_process_fence)
                  >> r))
            ≡ err e)
    refused true true true r h = cc
    refused true true false r h = (_, refl)
    refused true false c r h = (_, refl)
    refused false b c r h = (_, refl)

    stale : {a b : ℕ} → b < a → (a == b) ≡ false
    stale h = ground arith

mark_running_stale :
    (is_root : Bool) (generation now : ℕ) (db : Db)
    → generation < db.process.fencing_generation
    → mark_running is_root generation now db ≡ err Transaction.stale_process_fence
unfolding mark_running start_row
mark_running_stale is_root generation now db old = ground arith

beat_stale :
    (d : Deployment) (generation seconds now : ℕ) (db : Db)
    → generation < db.process.fencing_generation
    → perform d (beat generation seconds) now db ≡ db
unfolding perform heartbeat heartbeat_row
beat_stale d generation seconds now db old = ground arith

-- A history never lowers the fencing generation or the number of deliveries.
pub run-fence :
    (d : Deployment) (cs : List (Command × ℕ)) (db : Db)
    → (db.process.fencing_generation ≤ (run d cs db).process.fencing_generation)
      × (db.process.delivery_count ≤ (run d cs db).process.delivery_count)
run-fence d cs db =
    run-keeps (AtLeast db.process.fencing_generation db.process.delivery_count) d cs db
      (λ b p q s u. Update-AtLeast _ _ p q s u) (ground arith)

-- A worker whose fence is older than the row's is refused after every history: its outcome and its
-- start raise, and its heartbeat changes nothing.
pub run-stale :
    (d : Deployment) (cs : List (Command × ℕ)) (db : Db) (is_root : Bool) (o : Outcome)
    (backoff seconds now : ℕ)
    → o.fencing_generation < db.process.fencing_generation
    → ((e : Fault) × (accept_outcome d.canonical d.committer backoff o now (run d cs db) ≡ err e))
      × (mark_running is_root o.fencing_generation now (run d cs db)
          ≡ err Transaction.stale_process_fence)
      × (perform d (beat o.fencing_generation seconds) now (run d cs db) ≡ run d cs db)
run-stale d cs db is_root o backoff seconds now old =
    let later = run d cs db in
    let behind = lt_of_lt_of_le old (run-fence d cs db).0 in
    (
      accept_stale d backoff o now later behind,
      mark_running_stale is_root o.fencing_generation now later behind,
      beat_stale d o.fencing_generation seconds now later behind,
    )
