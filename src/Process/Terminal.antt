-- ===== src/Process/Terminal.antt =====
-- The terminal rows of mkb_processes along a history.
use myknowledgebase.Prelude.{
  not, ◌&&◌, ℕ, suc, ◌≡◌, refl, Bool, true, false, Option, none, some, is_some, List, arith, subst,
  String,
}
use myknowledgebase.Process.Row.{Process, is_terminal}
use myknowledgebase.Process.Updates.{
  admit_row, release_row, claim_row, start_row, heartbeat_row, succeed_row, retry_row, fail_row,
  promote_row, expire_cancelling_row, recover_row, restart_row, fence_idle_row, fence_held_row,
  cancel_unheld_row, clean_row,
}
use myknowledgebase.Process.Transaction.{Db}
use myknowledgebase.Process.Step
use myknowledgebase.Process.Step.{Update, Deployment, Command, run}
use myknowledgebase.Process.Step.Histories.{run-keeps}
use myknowledgebase.Process.Sound.{updated_by}

-- A terminal row after the mark for its cleanup: it is the row, or the row with the mark, which counts as
-- one revision and is set once.
pub data Marked (p : Process) (q : Process) : Type 0 where
  unmarked : q ≡ p → Marked p q
  marked :
      (digest : String) (now : ℕ)
      → p.cleanup_eligible_at ≡ none
      → q ≡ record p {
        cleanup_eligible_at = some now;
        cleanup_fence_digest = some digest;
        row_revision = suc p.row_revision;
      }
      → Marked p q

open_row : {A : Type 0} {b : Bool} → b ≡ false → b ≡ true → A
open_row f t = cc

Update-cleans :
    {b : Bool} (p q : Process)
    → is_terminal p.status ≡ true
    → Update b p q
    → (digest : String) × (now : ℕ) × (clean_row digest now p ≡ some q)
unfolding admit_row release_row claim_row start_row heartbeat_row succeed_row retry_row fail_row
    promote_row expire_cancelling_row recover_row restart_row fence_idle_row fence_held_row
    cancel_unheld_row
Update-cleans p q t (Step.admits pool is h) =
    open_row (updated_by (λ r. is_terminal p.status ≡ false) _ _ h (λ e. ground arith)) t
Update-cleans p q t (Step.releases h) =
    open_row (updated_by (λ r. is_terminal p.status ≡ false) _ _ h (λ e. ground arith)) t
Update-cleans p q t (Step.claims hash owner expires now revision h) =
    open_row (updated_by (λ r. is_terminal p.status ≡ false) _ _ h (λ e. ground arith)) t
Update-cleans p q t (Step.starts generation now h) =
    open_row (updated_by (λ r. is_terminal p.status ≡ false) _ _ h (λ e. ground arith)) t
Update-cleans p q t (Step.beats generation expires now h) =
    open_row (updated_by (λ r. is_terminal p.status ≡ false) _ _ h (λ e. ground arith)) t
Update-cleans p q t (Step.succeeds o generation now proved h) =
    open_row (updated_by (λ r. is_terminal p.status ≡ false) _ _ h (λ e. ground arith)) t
Update-cleans p q t (Step.retries digest code wake generation less h) =
    open_row (updated_by (λ r. is_terminal p.status ≡ false) _ _ h (λ e. ground arith)) t
Update-cleans p q t (Step.fails code disposition digest generation now h) =
    open_row (updated_by (λ r. is_terminal p.status ≡ false) _ _ h (λ e. ground arith)) t
Update-cleans p q t (Step.promotes now revision h) =
    open_row (updated_by (λ r. is_terminal p.status ≡ false) _ _ h (λ e. ground arith)) t
Update-cleans p q t (Step.expires generation now h) =
    open_row (updated_by (λ r. is_terminal p.status ≡ false) _ _ h (λ e. ground arith)) t
Update-cleans p q t (Step.recovers generation now less h) =
    open_row (updated_by (λ r. is_terminal p.status ≡ false) _ _ h (λ e. ground arith)) t
Update-cleans p q t (Step.restarts generation allowed h) =
    open_row (updated_by (λ r. is_terminal p.status ≡ false) _ _ h (λ e. ground arith)) t
Update-cleans p q t (Step.fences_idle h) =
    open_row (updated_by (λ r. is_terminal p.status ≡ false) _ _ h (λ e. ground arith)) t
Update-cleans p q t (Step.fences_held h) =
    open_row (updated_by (λ r. is_terminal p.status ≡ false) _ _ h (λ e. ground arith)) t
Update-cleans p q t (Step.cancels now h) =
    open_row (updated_by (λ r. is_terminal p.status ≡ false) _ _ h (λ e. ground arith)) t
Update-cleans p q t (Step.cleans digest now h) = (digest, now, h)

Marked-Update :
    {b : Bool} (p q r : Process)
    → is_terminal p.status ≡ true
    → Marked p q
    → Update b q r
    → Marked p r
unfolding clean_row
Marked-Update {b} p q r t (unmarked same) u =
    let c = Update-cleans p r t (subst (λ (x : Process). Update b x r) same u) in
    updated_by (Marked p) _ _ c.2
      (λ e. marked c.0 c.1 (unset (is_terminal p.status) p.cleanup_eligible_at e) refl)
  where
    unset : (a : Bool) (o : Option ℕ) → (a && not (is_some o)) ≡ true → o ≡ none
    unset a none e = refl
    unset a (some n) e = ground arith
Marked-Update {b} p q r t (marked digest now none_yet same) u =
    let marked_row : Process = record p {
      cleanup_eligible_at = some now;
      cleanup_fence_digest = some digest;
      row_revision = suc p.row_revision;
    } in
    let c = Update-cleans marked_row r t (subst (λ (x : Process). Update b x r) same u) in
    updated_by (Marked p) _ _ c.2 (λ e. set_once (is_terminal p.status) e)
  where
    set_once : {A : Type 0} (a : Bool) → (a && false) ≡ true → A
    set_once a e = ground arith

-- A Process that has succeeded, failed or been cancelled keeps every modelled column in every history, but
-- for the mark that its row may be cleaned up, which is set at most once and counts as one revision.
pub run-Marked :
    (d : Deployment) (cs : List (Command × ℕ)) (db : Db)
    → is_terminal db.process.status ≡ true
    → Marked db.process (run d cs db).process
run-Marked d cs db t =
    run-keeps (Marked db.process) d cs db (λ b p q m u. Marked-Update db.process p q t m u)
      (unmarked refl)
