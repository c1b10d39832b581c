-- ===== src/Cancellation/Converged.antt =====
-- `_converge_cancellation_tx`: when an Execution may become cancelled.
use myknowledgebase.Prelude.{
  of_runs, ℕ, ◌≡◌, refl, sym, subst, String, Bool, true, false, ◌&&◌, ◌||◌, List, [], ◌∷◌, map, any,
  ◌==◌, string_eq, Memᴰ, ok, if-both, ensured, Ensures, returns, then-Ensures, arith, beq→eq,
}
use myknowledgebase.Process.Row.{
  is_cancelling_execution, Process, ExecutionStatus, is_active, is_terminal_execution,
}
use myknowledgebase.Cancellation.Tree.{
  may_be_cancelled, Store, Node, has_active, fenced_node, converged_node, cancelled_process,
  fence_execution, fence_all, cancel_tree, tree_rows, request_cancellation, execution_of,
}
use myknowledgebase.Cancellation.Stopped.{
  cancel_process-is_active, cancel_process-execution_uuid, of_updated, converge_step-keeps,
  cancel_tree-keeps,
}

abbrev pub is_cancelled : ExecutionStatus → Bool
is_cancelled ExecutionStatus.cancelled = true
is_cancelled _ = false

-- Every cancelled Execution has no active Process.
abbrev pub Quiet : Store → Type 0
Quiet s =
    (e : Node)
    → Memᴰ e s.executions
    → is_cancelled e.status ≡ true
    → has_active e.execution_uuid s ≡ false

active_in : String → Process → Bool
active_in uuid p = (p.execution_uuid == uuid) && is_active p.status

-- The statements on the Processes make no Process active.
cancelled_process-active_in :
    (now : ℕ) (row uuid : String) (p : Process)
    → active_in uuid p ≡ false
    → active_in uuid (cancelled_process now row p) ≡ false
unfolding active_in
cancelled_process-active_in now row uuid p h =
    if-both (λ (q : Process). ((q.execution_uuid == uuid) && is_active q.status) ≡ false)
      (p.execution_uuid == row) _ _
      (λ e.
        rw (cancel_process-execution_uuid now p)
          (and_false (p.execution_uuid == uuid) (cancel_process-is_active now p) h))
      (λ e. h)
  where
    and_false :
        (a : Bool) {b c : Bool} → (b ≡ false → c ≡ false) → (a && b) ≡ false → (a && c) ≡ false
    and_false true f h = f h
    and_false false f h = refl

has_active-map :
    (now : ℕ) (row uuid : String) (ps : List Process)
    → any (active_in uuid) ps ≡ false
    → any (active_in uuid) (map (cancelled_process now row) ps) ≡ false
has_active-map now row uuid [] h = refl
has_active-map now row uuid (p ∷ ps) h =
    let both = neither h in
    rw (cancelled_process-active_in now row uuid p both.0) (has_active-map now row uuid ps both.1)
  where
    neither : {a b : Bool} → (a || b) ≡ false → (a ≡ false) × (b ≡ false)
    neither {a = true} h = cc
    neither {a = false} h = (refl, h)

fence_execution-Quiet :
    (now : ℕ) (s : Store) (row : Node) → Quiet s → Quiet (fence_execution now s row)
unfolding fence_execution active_in
fence_execution-Quiet now s row q =
    of_updated
      (λ e.
        is_cancelled e.status ≡ true
        → has_active e.execution_uuid (fence_execution now s row) ≡ false)
      (fenced_node now row.execution_uuid) s.executions
      (λ e m.
        fenced_quiet e
          (λ c. has_active-map now row.execution_uuid e.execution_uuid s.processes (q e m c)))
  where
    fenced_quiet :
        (e : Node)
        → (is_cancelled e.status ≡ true
            → has_active e.execution_uuid (fence_execution now s row) ≡ false)
        → is_cancelled (fenced_node now row.execution_uuid e).status ≡ true
        → has_active
            (fenced_node now row.execution_uuid e).execution_uuid
            (fence_execution now s row)
          ≡ false
    fenced_quiet e f =
        if-both
          (λ (n : Node).
            is_cancelled n.status ≡ true
            → has_active n.execution_uuid (fence_execution now s row) ≡ false)
          ((e.execution_uuid == row.execution_uuid) && may_be_cancelled e.status) _ _ (λ h c. cc)
          (λ h. f)

fence_all-Quiet : (now : ℕ) (s : Store) (rows : List Node) → Quiet s → Quiet (fence_all now s rows)
unfolding fence_all
fence_all-Quiet now s [] q = q
fence_all-Quiet now s (row ∷ rows) q =
    fence_all-Quiet now (fence_execution now s row) rows (fence_execution-Quiet now s row q)

converged-Quiet :
    (now : ℕ) (s : Store) (uuid : String)
    → Quiet s
    → has_active uuid s ≡ false
    → Quiet (record s { executions = map (converged_node now uuid) s.executions })
converged-Quiet now s uuid q idle =
    of_updated (λ e. is_cancelled e.status ≡ true → has_active e.execution_uuid s ≡ false)
      (converged_node now uuid) s.executions
      (λ e m.
        if-both (λ (n : Node). is_cancelled n.status ≡ true → has_active n.execution_uuid s ≡ false)
          ((e.execution_uuid == uuid) && is_cancelling_execution e.status) _ _
          (λ h c.
            subst (λ u. has_active u s ≡ false) (sym (same (is_cancelling_execution e.status) h))
              idle)
          (λ h. q e m))
  where
    same : {a : String} (b : Bool) → ((a == uuid) && b) ≡ true → a ≡ uuid
    same {a} b h = beq→eq a uuid (ground arith)

-- A cancellation of a tree keeps that every cancelled Execution has no active Process.
cancel_tree-Quiet :
    (include_root : Bool) (now : ℕ) (root : Node) (s : Store) (done : Store × ℕ)
    → Quiet s
    → cancel_tree include_root now root s ≡ ok done
    → Quiet done.0
cancel_tree-Quiet include_root now root s done q h =
    cancel_tree-keeps Quiet include_root now root s done h
      (fence_all-Quiet now s (tree_rows include_root root.execution_uuid s.executions) q)
      (λ st row st' k step.
        converge_step-keeps Quiet now st row st' k (converged-Quiet now st row.execution_uuid k)
          step)

-- If every cancelled Execution has no active Process, then that is so after every request for a
-- cancellation as well: an Execution is cancelled only once its Processes have ended.
pub request_cancellation-Quiet :
    (now : ℕ) (uuid : String) (s : Store) (done : Store × Bool)
    → Quiet s
    → request_cancellation now uuid s ≡ ok done
    → Quiet done.0
unfolding request_cancellation
request_cancellation-Quiet now uuid s done q h =
    ensured
      (then-Ensures (λ e. Unit {0}) (λ (d : Store × Bool). Quiet d.0) (execution_of s uuid) _
        (of_runs (λ e. Unit {0}) (execution_of s uuid) (λ e r. tt))
        (λ e u.
          if-both (Ensures (λ (d : Store × Bool). Quiet d.0)) (is_terminal_execution e.status) _ _
            (λ k. returns q)
            (λ k.
              then-Ensures (λ e. Unit {0}) (λ (d : Store × Bool). Quiet d.0)
                (execution_of s e.root_execution_uuid) _
                (of_runs (λ e. Unit {0}) (execution_of s e.root_execution_uuid) (λ e r. tt))
                (λ root v.
                  then-Ensures (λ (d : Store × ℕ). Quiet d.0) (λ (d : Store × Bool). Quiet d.0)
                    (cancel_tree true now root s) (λ r. ok (r.0, true))
                    (of_runs (λ (d : Store × ℕ). Quiet d.0) (cancel_tree true now root s)
                      (λ d r. cancel_tree-Quiet true now root s d q r))
                    (λ d k. returns k)))))
      h
