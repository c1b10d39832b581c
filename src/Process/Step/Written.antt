-- ===== src/Process/Step/Written.antt =====
-- Which UPDATE statements the command of each transaction runs.
use myknowledgebase.Prelude.{
  false, true, ◌&&◌, ◌<◌, nat_eq, string_eq, option_eq, ◌||◌, ◌==◌, raises, returns, Ensures, refl,
  ◌>>=◌, not-false, ltb→lt, leb_false→lt, leb, none, check-Ensures, not, then-Ensures, ltb, err,
  refuse-Ensures, some, if-both, require-Ensures, Result, ℕ, String, Option, ◌≡◌, ◌+◌, ok, Bool,
}
use myknowledgebase.Process.Row.{
  is_ready, is_cancelling_execution, is_terminal, is_running, is_terminal_execution, truthy,
  is_cancelling, Process,
}
use myknowledgebase.Process.Updates.{
  admit_row, release_row, claim_row, start_row, heartbeat_row, succeed_row, retry_row, fail_row,
  promote_row, expire_cancelling_row, recover_row, restart_row, fence_idle_row, fence_held_row,
  cancel_unheld_row, clean_row,
}
use myknowledgebase.Process.Transaction.{if_written, Db, Done, Fault}
use myknowledgebase.Process.Claims.{
  fail_process, fail_expired_ready, claimable, claim_candidate, mark_running, heartbeat,
  past_deadline,
}
use myknowledgebase.Process.Outcomes.{
  text, fail_and_route, Outcome, is_proved, accept_outcome, accept_running, accept_success,
  accept_retryable, accept_failure, accept_terminal, accept_disposition,
}
use myknowledgebase.Process.Outcomes
use myknowledgebase.Process.Outcomes.{Disposition, commit, assert_identity}
use myknowledgebase.Process.Recovery
use myknowledgebase.Process.Recovery.{
  is_expired, expire_cancelling, replay, promote_due_retry, recover_expired_lease, restart_process,
  cancel_process,
}
use myknowledgebase.Process.Step.{
  admit, release, admits, releases, is_restart, Update, succeeds, retries, promotes, expires,
  recovers, restarts, fences_idle, fences_held, cancels, cleans, claims, starts, beats, fails,
  Updates, unchanged, then_update, Command, claim, start, beat, finish, promote, recover, cancel,
  cancel_task, restart, clean_up, change, Deployment, perform, committed,
}

abbrev once : {b : Bool} {p q : Process} → Update b p q → Updates b p q
once u = then_update unchanged u

-- A transaction that writes `p` by UPDATE statements, or raises.
abbrev WritesBy : {A : Type 0} → Bool → Process → Result Fault (Done A) → Type 0
WritesBy b p r = Ensures (λ done. Updates b p done.db.process) r

abbrev Writes : {A : Type 0} → Process → Result Fault (Done A) → Type 0
Writes p r = WritesBy false p r

Writes-then :
    {A B : Type 0} (p : Process) (m : Result Fault (Done A)) (f : Done A → Result Fault (Done B))
    → Writes p m
    → ((done : Done A) → Updates false p done.db.process → Writes p (f done))
    → Writes p (m >>= f)
Writes-then p m f w g =
    then-Ensures (λ done. Updates false p done.db.process) (λ done. Updates false p done.db.process)
      m f w g

if_written-of :
    {B : Type 0} (P : B → Type 0) (o : Option Process) (f : Process → B) (b : B)
    → ((q : Process) → o ≡ some q → P (f q))
    → P b
    → P (if_written o f b)
if_written-of P none f b s n = n
if_written-of P (some q) f b s n = s q refl

fail_process-Writes :
    (code disposition : String) (digest : Option String) (read : Process) (now : ℕ) (db : Db)
    → Writes db.process (fail_process code disposition digest read now db)
unfolding fail_process
fail_process-Writes code disposition digest read now db =
    if_written-of (Writes db.process)
      (fail_row code disposition digest read.fencing_generation now db.process) _ _
      (λ q e. returns (once (fails code disposition digest read.fencing_generation now e)))
      (if-both (Writes db.process) (db.process.fencing_generation == read.fencing_generation) _ _
        (λ e. raises) (λ e. returns unchanged))

fail_expired_ready-Writes : (now : ℕ) (db : Db) → Writes db.process (fail_expired_ready now db)
unfolding fail_expired_ready
fail_expired_ready-Writes now db =
    Writes-then db.process _ _ (fail_process-Writes _ _ none db.process now db)
      (λ done u. returns u)

claim_candidate-Writes :
    (hash owner : String) (seconds now : ℕ) (db : Db)
    → Writes db.process (claim_candidate hash owner seconds now db)
unfolding claim_candidate fail_expired_ready
claim_candidate-Writes hash owner seconds now db =
    if-both (Writes db.process) (past_deadline db.process.deadline_at now) _ _
      (λ e. Writes-then db.process _ _ (fail_expired_ready-Writes now db) (λ done u. returns u))
      (λ e.
        if_written-of (Writes db.process)
          (claim_row hash owner (now + seconds) now db.process.row_revision db.process) _ _
          (λ q u. returns (once (claims hash owner _ _ _ u))) (returns unchanged))

mark_running-Writes :
    (is_root : Bool) (generation now : ℕ) (db : Db)
    → Writes db.process (mark_running is_root generation now db)
unfolding mark_running
mark_running-Writes is_root generation now db =
    if-both (Writes db.process)
      (is_running db.process.status && (db.process.fencing_generation == generation)) _ _
      (λ e. returns unchanged)
      (λ e.
        if_written-of (Writes db.process) (start_row generation now db.process) _ _
          (λ q u. returns (once (starts _ _ u))) raises)

heartbeat-Writes :
    (generation seconds now : ℕ) (db : Db) → Writes db.process (heartbeat generation seconds now db)
unfolding heartbeat
heartbeat-Writes generation seconds now db =
    require-Ensures _ (leb 1 seconds && leb seconds 3600) _ _ (λ e.
      if_written-of (Writes db.process) (heartbeat_row generation (now + seconds) now db.process) _
        _ (λ q u. returns (once (beats _ _ _ u))) (returns unchanged))

fail_and_route-Writes :
    (code disposition : String) (digest : Option String) (now : ℕ) (db : Db)
    → Writes db.process (fail_and_route code disposition digest now db)
fail_and_route-Writes code disposition digest now db =
    Writes-then db.process _ _ (fail_process-Writes code disposition digest db.process now db)
      (λ done u. returns u)

accept_success-Writes :
    (committer : Option (Outcome → Result Fault (Unit {0}))) (o : Outcome) (now : ℕ) (db : Db)
    → Writes db.process (accept_success committer o now db)
unfolding accept_success
accept_success-Writes committer o now db =
    if-both (Writes db.process) (not (is_proved o)) _ _ (λ e. fail_and_route-Writes _ _ none now db)
      (λ e. check-Ensures _ (commit committer o) _ (
        if_written-of (Writes db.process)
          (succeed_row (some o.outcome_digest) o.output_manifest_ref o.output_manifest_digest
            o.proof_ref o.proof_digest o.fencing_generation now db.process)
          _ _ (λ q u. returns (once (succeeds o _ _ (not-false e) u))) raises))

accept_retryable-Writes :
    (backoff : ℕ) (o : Outcome) (now : ℕ) (db : Db)
    → Writes db.process (accept_retryable backoff o now db)
unfolding accept_retryable
accept_retryable-Writes backoff o now db =
    if-both (Writes db.process) (ltb db.process.retry_count db.process.max_retries) _ _
      (λ e.
        if_written-of (Writes db.process)
          (retry_row o.outcome_digest (text o.error_code) (now + backoff) o.fencing_generation
            db.process)
          _ _ (λ q u. returns (once (retries _ _ _ _ (ltb→lt e) u))) raises)
      (λ e. fail_and_route-Writes _ _ (some o.outcome_digest) now db)

accept_disposition-Writes :
    (k : Disposition) (committer : Option (Outcome → Result Fault (Unit {0}))) (backoff : ℕ)
    (o : Outcome) (now : ℕ) (db : Db)
    → Writes db.process (accept_disposition k committer backoff o now db)
unfolding accept_disposition accept_failure
accept_disposition-Writes Outcomes.succeeded committer backoff o now db =
    accept_success-Writes committer o now db
accept_disposition-Writes Outcomes.retryable_failure committer backoff o now db =
    require-Ensures _ (truthy o.error_code && truthy o.error_message) _ _
      (λ e. accept_retryable-Writes backoff o now db)
accept_disposition-Writes Outcomes.failed committer backoff o now db =
    require-Ensures _ (truthy o.error_code && truthy o.error_message) _ _
      (λ e. fail_and_route-Writes _ _ (some o.outcome_digest) now db)
accept_disposition-Writes Outcomes.waiting committer backoff o now db = raises

accept_outcome-Writes :
    (d : Deployment) (backoff : ℕ) (o : Outcome) (now : ℕ) (db : Db)
    → Writes db.process (accept_outcome d.canonical d.committer backoff o now db)
unfolding accept_outcome accept_terminal accept_running
accept_outcome-Writes d backoff o now db =
    require-Ensures _ (d.canonical o == o.outcome_digest) _ _ (λ c.
      check-Ensures _ (assert_identity db.process o) _ (
        if-both (Writes db.process) (is_terminal db.process.status) _ _
          (λ e.
            if-both (Writes db.process)
              (db.process.accepted_outcome_digest == some o.outcome_digest) _ _
              (λ s. returns unchanged) (λ s. raises))
          (λ e. require-Ensures _ (is_running db.process.status) _ _ (λ r.
            refuse-Ensures _ (is_terminal_execution db.execution.status) _ _ (λ t.
              refuse-Ensures _ (is_cancelling_execution db.execution.status) _ _
                (λ k. accept_disposition-Writes o.disposition d.committer backoff o now db))))))

-- The row in the reply of a transaction that cannot raise.
abbrev row_of : Done Bool → Process
row_of done = done.db.process

expire_cancelling-Updates :
    (now : ℕ) (db : Db) → Updates false db.process (row_of (expire_cancelling now db))
unfolding expire_cancelling
expire_cancelling-Updates now db =
    if_written-of (λ done. Updates false db.process (row_of done))
      (expire_cancelling_row db.process.fencing_generation now db.process) _ _
      (λ q u. once (expires _ _ u)) unchanged

replay-Updates :
    (now : ℕ) (db : Db)
    → db.process.recovery_count < db.process.max_recoveries
    → Updates false db.process (row_of (replay now db))
unfolding replay
replay-Updates now db less =
    if_written-of (λ done. Updates false db.process (row_of done))
      (recover_row db.process.fencing_generation now db.process) _ _
      (λ q u. once (recovers _ _ less u)) unchanged

promote_due_retry-Updates :
    (now : ℕ) (db : Db) → Updates false db.process (row_of (promote_due_retry now db))
unfolding promote_due_retry
promote_due_retry-Updates now db =
    if-both (λ done. Updates false db.process (row_of done))
      (is_terminal_execution db.execution.status || is_cancelling_execution db.execution.status) _ _
      (λ e. unchanged)
      (λ e.
        if_written-of (λ done. Updates false db.process (row_of done))
          (promote_row now db.process.row_revision db.process) _ _ (λ q u. once (promotes _ _ u))
          unchanged)

recover_expired_lease-Writes :
    (routing : Result Fault (Unit {0})) (now : ℕ) (db : Db)
    → Writes db.process (recover_expired_lease routing now db)
unfolding recover_expired_lease
recover_expired_lease-Writes routing now db =
    if-both (Writes db.process) (not (is_expired now db.process)) _ _ (λ x. returns unchanged)
      (λ x.
        if-both (Writes db.process)
          (is_cancelling db.process.status || is_cancelling_execution db.execution.status) _ _
          (λ c. returns (expire_cancelling-Updates now db))
          (λ c.
            if-both (Writes db.process) (not db.process.safe_replay) _ _
              (λ s. failed "indeterminate-side-effect" "indeterminate")
              (λ s.
                if-both (Writes db.process)
                  (leb db.process.max_recoveries db.process.recovery_count) _ _
                  (λ m. failed "recovery-exhausted" "recovery-exhausted")
                  (λ m. returns (replay-Updates now db (leb_false→lt m))))))
  where
    failed :
        (code disposition : String)
        → Writes db.process (Recovery.fail_and_route routing code disposition now db)
    failed code disposition =
        Writes-then db.process (fail_process code disposition none db.process now db) _
          (fail_process-Writes code disposition none db.process now db)
          (λ done u. check-Ensures _ routing _ (returns u))

restart_process-Writes :
    (key : String) (expected : ℕ) (db : Db)
    → WritesBy true db.process (restart_process key expected db)
unfolding restart_process
restart_process-Writes key expected db = refuse-Ensures _ (key == "") _ _ (λ k.
    require-Ensures _ (db.process.fencing_generation == expected) _ _ (λ g.
      refuse-Ensures _ (is_terminal db.process.status) _ _ (λ t.
        if_written-of (WritesBy true db.process) (restart_row expected db.process) _ _
          (λ q u. returns (once (restarts expected refl u))) raises)))

-- A further statement of the same transaction.
also :
    (p q : Process) (o : Option Process)
    → Updates false p q
    → ((r : Process) → o ≡ some r → Update false q r)
    → Updates false p (if_written o (λ r. r) q)
also p q o us f = if_written-of (Updates false p) o (λ r. r) q (λ r e. then_update us (f r e)) us

cancel_process-Updates : (now : ℕ) (p : Process) → Updates false p (cancel_process now p)
unfolding cancel_process
cancel_process-Updates now p =
    let fenced = also p p (fence_idle_row p) unchanged (λ r. fences_idle) in
    let unheld = also p _ (cancel_unheld_row now _) fenced (λ r. cancels now) in
    also p _ (fence_held_row _) unheld (λ r. fences_held)

committed-Updates :
    {A : Type 0} {b : Bool} (db : Db) (r : Result Fault (Done A))
    → WritesBy b db.process r
    → Updates b db.process (committed db r).process
committed-Updates db (ok done) (returns u) = u
committed-Updates db (err e) u = unchanged

-- Whatever a command is, the row after it comes from the row before by UPDATE statements.
pub perform-Updates :
    (d : Deployment) (c : Command) (now : ℕ) (db : Db)
    → Updates (is_restart c) db.process (perform d c now db).process
unfolding perform
perform-Updates d (admit pool) now db =
    if-both (λ (db' : Db). Updates false db.process db'.process) (is_ready db.process.status) _ _
      (λ e. also db.process db.process (admit_row pool db.process) unchanged (λ r. admits pool e))
      (λ e. unchanged)
perform-Updates d release now db =
    also db.process db.process (release_row db.process) unchanged (λ r. releases)
perform-Updates d (claim hash owner seconds can_run task_open) now db =
    if-both (λ (db' : Db). Updates false db.process db'.process)
      (claimable can_run task_open now db) _ _
      (λ e. committed-Updates db _ (claim_candidate-Writes hash owner seconds now db))
      (λ e. unchanged)
perform-Updates d (start is_root generation) now db =
    committed-Updates db _ (mark_running-Writes is_root generation now db)
perform-Updates d (beat generation seconds) now db =
    committed-Updates db _ (heartbeat-Writes generation seconds now db)
perform-Updates d (finish backoff o) now db =
    committed-Updates db _ (accept_outcome-Writes d backoff o now db)
perform-Updates d promote now db = promote_due_retry-Updates now db
perform-Updates d (recover routing) now db =
    committed-Updates db _ (recover_expired_lease-Writes routing now db)
perform-Updates d cancel now db = cancel_process-Updates now db.process
perform-Updates d cancel_task now db =
    also db.process db.process (fence_held_row db.process) unchanged (λ r. fences_held)
perform-Updates d (restart key expected) now db =
    committed-Updates db _ (restart_process-Writes key expected db)
perform-Updates d (clean_up digest is_candidate) now db =
    if-both (λ (db' : Db). Updates false db.process db'.process)
      (is_candidate && is_terminal_execution db.execution.status) _ _
      (λ e.
        also db.process db.process (clean_row digest now db.process) unchanged
          (λ r. cleans digest now))
      (λ e. unchanged)
perform-Updates d (change e) now db = unchanged
