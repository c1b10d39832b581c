-- ===== src/Process/Step.antt =====
-- The transactions of runtime_claims.py, runtime_outcome.py and operator_control.py as commands on one
-- Process, and the relation of the rows that an UPDATE statement joins.
pub mod Written
pub mod Histories
use myknowledgebase.Prelude.{
  ℕ, ◌<◌, ◌≡◌, String, Bool, true, false, Option, none, some, List, [], ◌∷◌, ◌&&◌, Result, ok, err,
  if◌then◌else◌,
}
use myknowledgebase.Process.Row.{Pool, Process, Execution, is_ready, is_terminal_execution}
use myknowledgebase.Process.Updates.{
  admit_row, release_row, claim_row, start_row, heartbeat_row, succeed_row, retry_row, fail_row,
  promote_row, expire_cancelling_row, recover_row, restart_row, fence_idle_row, fence_held_row,
  cancel_unheld_row, clean_row,
}
use myknowledgebase.Process.Transaction.{Db, Done, Fault, if_written}
use myknowledgebase.Process.Claims.{claimable, claim_candidate, mark_running, heartbeat}
use myknowledgebase.Process.Outcomes.{Outcome, is_proved, accept_outcome}
use myknowledgebase.Process.Recovery.{
  promote_due_retry, recover_expired_lease, restart_process, cancel_process,
}

-- One statement that wrote the row; the restart of an operator only where `by_operator` holds.
pub data Update (by_operator : Bool) (p q : Process) : Type 0 where
  admits :
      (pool : Option Pool)
      → is_ready p.status ≡ true
      → admit_row pool p ≡ some q
      → Update by_operator p q
  releases : release_row p ≡ some q → Update by_operator p q
  claims :
      (hash owner : String) (expires now revision : ℕ)
      → claim_row hash owner expires now revision p ≡ some q
      → Update by_operator p q
  starts : (generation now : ℕ) → start_row generation now p ≡ some q → Update by_operator p q
  beats :
      (generation expires now : ℕ)
      → heartbeat_row generation expires now p ≡ some q
      → Update by_operator p q
  succeeds :
      (o : Outcome) (generation now : ℕ)
      → is_proved o ≡ true
      → succeed_row
          (some o.outcome_digest)
          o.output_manifest_ref
          o.output_manifest_digest
          o.proof_ref
          o.proof_digest
          generation
          now
          p
        ≡ some q
      → Update by_operator p q
  retries :
      (digest code : String) (wake generation : ℕ)
      → p.retry_count < p.max_retries
      → retry_row digest code wake generation p ≡ some q
      → Update by_operator p q
  fails :
      (code disposition : String) (digest : Option String) (generation now : ℕ)
      → fail_row code disposition digest generation now p ≡ some q
      → Update by_operator p q
  promotes : (now revision : ℕ) → promote_row now revision p ≡ some q → Update by_operator p q
  expires :
      (generation now : ℕ)
      → expire_cancelling_row generation now p ≡ some q
      → Update by_operator p q
  recovers :
      (generation now : ℕ)
      → p.recovery_count < p.max_recoveries
      → recover_row generation now p ≡ some q
      → Update by_operator p q
  restarts :
      (generation : ℕ)
      → by_operator ≡ true
      → restart_row generation p ≡ some q
      → Update by_operator p q
  fences_idle : fence_idle_row p ≡ some q → Update by_operator p q
  fences_held : fence_held_row p ≡ some q → Update by_operator p q
  cancels : (now : ℕ) → cancel_unheld_row now p ≡ some q → Update by_operator p q
  cleans : (digest : String) (now : ℕ) → clean_row digest now p ≡ some q → Update by_operator p q

pub data Updates (by_operator : Bool) (p : Process) : Process → Type 0 where
  unchanged : Updates by_operator p p
  then_update :
      {q r : Process} → Updates by_operator p q → Update by_operator q r → Updates by_operator p r

-- What a deployment brings: the digest that an outcome should carry and the committer.
pub record Deployment : Type 0 where
  pub canonical : Outcome → String
  pub committer : Option (Outcome → Result Fault (Unit {0}))

-- A call on the Process at the time `now`, with the arguments that the caller brings, or a change of
-- its Execution by another part.
pub data Command : Type 0 where
  admit : Option Pool → Command
  release : Command
  claim : (hash owner : String) (seconds : ℕ) (can_run task_open : Bool) → Command
  start : (is_root : Bool) (generation : ℕ) → Command
  beat : (generation seconds : ℕ) → Command
  finish : (backoff : ℕ) → Outcome → Command
  promote cancel cancel_task : Command
  recover : (routing : Result Fault (Unit {0})) → Command
  clean_up : (digest : String) (is_candidate : Bool) → Command
  restart : (key : String) (expected : ℕ) → Command
  change : Execution → Command

abbrev pub is_restart : Command → Bool
is_restart (restart key expected) = true
is_restart _ = false

-- The rows after a transaction: one that raised has written nothing.
abbrev pub committed {ℓ} : {A : Type ℓ} → Db → Result Fault (Done A) → Db
committed db (ok done) = done.db
committed db (err e) = db

unfoldable pub perform : Deployment → Command → ℕ → Db → Db
perform d (admit pool) now db =
    if is_ready db.process.status
    then record db { process = if_written (admit_row pool db.process) (λ q. q) db.process }
    else db
perform d release now db = record db {
  process = if_written (release_row db.process) (λ q. q) db.process;
}
perform d (claim hash owner seconds can_run task_open) now db =
    if claimable can_run task_open now db
    then committed db (claim_candidate hash owner seconds now db)
    else db
perform d (start is_root generation) now db = committed db (mark_running is_root generation now db)
perform d (beat generation seconds) now db = committed db (heartbeat generation seconds now db)
perform d (finish backoff o) now db =
    committed db (accept_outcome d.canonical d.committer backoff o now db)
perform d promote now db = (promote_due_retry now db).db
perform d (recover routing) now db = committed db (recover_expired_lease routing now db)
perform d cancel now db = record db { process = cancel_process now db.process }
perform d cancel_task now db = record db {
  process = if_written (fence_held_row db.process) (λ q. q) db.process;
}
perform d (restart key expected) now db = committed db (restart_process key expected db)
perform d (clean_up digest is_candidate) now db =
    if is_candidate && is_terminal_execution db.execution.status
    then record db { process = if_written (clean_row digest now db.process) (λ q. q) db.process }
    else db
perform d (change e) now db = record db { execution = e }

-- A history: the commands with their times.
unfoldable pub run : Deployment → List (Command × ℕ) → Db → Db
run d [] db = db
run d ((c, now) ∷ cs) db = run d cs (perform d c now db)
