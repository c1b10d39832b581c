-- ===== src/Cancellation/Stopped.antt =====
-- `_cancel_execution_tree_tx`: what the loop over a tree leaves of its Processes.
use mathlib.Core.List.Memᴰ
use myknowledgebase.Prelude.{
  of_runs, ensured, Ensures, returns, then-Ensures, Bool-cases, inl, inr, sym, mem_of_map,
  beq_false→ne, ℕ, ◌≡◌, subst, ap, String, Bool, true, false, not, ◌&&◌, ◌||◌, List, [], ◌∷◌, map,
  keep, ◌==◌, string_eq, Memᴰ, ok, require, fold_ok, fold_ok_inv, >>=-eq-ok, >>-eq-ok, if-both,
  mem-keep, arith, is_some,
}
use myknowledgebase.Process.Row.{
  Process, Status, is_terminal, is_cancelling, is_active, is_cancelling_execution,
}
use myknowledgebase.Process.Updates.{fence_idle_row, fence_held_row, cancel_unheld_row}
use myknowledgebase.Process.Recovery.{cancel_process}
use myknowledgebase.Cancellation.Tree
use myknowledgebase.Cancellation.Tree.{
  has_open_descendant, execution_of, converged_node, has_active, changed, Store, Node, Fault,
  cancelled_process, fence_execution, fence_all, converge_cancellation, converge_step, cancel_tree,
  tree_rows, is_selected, is_root,
}

-- A Process that no worker can finish any more: ended, or being cancelled under a newer fence.
abbrev pub is_stopped : Status → Bool
is_stopped status = is_terminal status || is_cancelling status

pub cancel_process-is_stopped :
    (now : ℕ) (p : Process) → is_stopped (cancel_process now p).status ≡ true
unfolding cancel_process fence_idle_row fence_held_row cancel_unheld_row
cancel_process-is_stopped now p = ground arith

pub cancel_process-execution_uuid :
    (now : ℕ) (p : Process) → (cancel_process now p).execution_uuid ≡ p.execution_uuid
unfolding cancel_process fence_idle_row fence_held_row cancel_unheld_row
cancel_process-execution_uuid now p = ground arith

pub cancel_process-is_active :
    (now : ℕ) (p : Process)
    → is_active p.status ≡ false
    → is_active (cancel_process now p).status ≡ false
unfolding cancel_process fence_idle_row fence_held_row cancel_unheld_row
cancel_process-is_active now p h = ground arith

-- Every Process of the Execution is stopped.
abbrev pub AllStopped : String → List Process → Type 0
AllStopped uuid ps =
    (p : Process) → Memᴰ p ps → p.execution_uuid ≡ uuid → is_stopped p.status ≡ true

cancelled_process-stops :
    (now : ℕ) (uuid : String) (q : Process)
    → (cancelled_process now uuid q).execution_uuid ≡ uuid
    → is_stopped (cancelled_process now uuid q).status ≡ true
cancelled_process-stops now uuid q =
    if-both (λ (r : Process). r.execution_uuid ≡ uuid → is_stopped r.status ≡ true)
      (q.execution_uuid == uuid) _ _ (λ e h. cancel_process-is_stopped now q)
      (λ e h. absurd (beq_false→ne q.execution_uuid uuid e h))

cancelled_process-keeps :
    (now : ℕ) (u v : String) (q : Process)
    → (q.execution_uuid ≡ v → is_stopped q.status ≡ true)
    → (cancelled_process now u q).execution_uuid ≡ v
    → is_stopped (cancelled_process now u q).status ≡ true
cancelled_process-keeps now u v q k =
    if-both (λ (r : Process). r.execution_uuid ≡ v → is_stopped r.status ≡ true)
      (q.execution_uuid == u) _ _ (λ e h. cancel_process-is_stopped now q) (λ e h. k h)

-- What holds of the image of every row holds of the rows of a table that was updated.
pub of_updated :
    {A : Type 0} (P : A → Type 0) (f : A → A) (xs : List A)
    → ((a : A) → Memᴰ a xs → P (f a))
    → (a : A) → Memᴰ a (map f xs)
    → P a
of_updated P f xs h a m = let r = mem_of_map f xs m in subst P r.2 (h r.0 r.1)

fence_execution-stops :
    (now : ℕ) (s : Store) (row : Node)
    → AllStopped row.execution_uuid (fence_execution now s row).processes
unfolding fence_execution
fence_execution-stops now s row =
    of_updated (λ p. p.execution_uuid ≡ row.execution_uuid → is_stopped p.status ≡ true) _
      s.processes (λ q m. cancelled_process-stops now row.execution_uuid q)

fence_execution-keeps :
    (now : ℕ) (s : Store) (row : Node) (uuid : String)
    → AllStopped uuid s.processes
    → AllStopped uuid (fence_execution now s row).processes
unfolding fence_execution
fence_execution-keeps now s row uuid k =
    of_updated (λ p. p.execution_uuid ≡ uuid → is_stopped p.status ≡ true) _ s.processes
      (λ q m. cancelled_process-keeps now row.execution_uuid uuid q (k q m))

fence_all-keeps :
    (now : ℕ) (s : Store) (rows : List Node) (uuid : String)
    → AllStopped uuid s.processes
    → AllStopped uuid (fence_all now s rows).processes
unfolding fence_all
fence_all-keeps now s [] uuid k = k
fence_all-keeps now s (row ∷ rows) uuid k =
    fence_all-keeps now (fence_execution now s row) rows uuid
      (fence_execution-keeps now s row uuid k)

fence_all-stops :
    (now : ℕ) (s : Store) (rows : List Node) (row : Node)
    → Memᴰ row rows
    → AllStopped row.execution_uuid (fence_all now s rows).processes
unfolding fence_all
fence_all-stops now s [] row m = elim m [ ]
fence_all-stops now s (x ∷ rows) row (Memᴰ.head e) =
    subst
      (λ (y : Node).
        AllStopped y.execution_uuid (fence_all now (fence_execution now s x) rows).processes)
      (sym e)
      (fence_all-keeps now (fence_execution now s x) rows x.execution_uuid
        (fence_execution-stops now s x))
fence_all-stops now s (x ∷ rows) row (Memᴰ.tail m) =
    fence_all-stops now (fence_execution now s x) rows row m

-- A convergence leaves the store, or ends the Execution where it has no active Process.
pub converge_cancellation-Ensures :
    (P : Store × Bool → Type 0) (now : ℕ) (s : Store) (uuid : String)
    → P (s, false)
    → (has_active uuid s ≡ false
        → P (record s { executions = map (converged_node now uuid) s.executions }, true))
    → Ensures P (converge_cancellation now s uuid)
unfolding converge_cancellation
converge_cancellation-Ensures P now s uuid same ended =
    then-Ensures (λ a. Unit {0}) P (execution_of s uuid) _
      (of_runs (λ a. Unit {0}) (execution_of s uuid) (λ a e. tt))
      (λ current u.
        if-both (Ensures P) (not (is_cancelling_execution current.status)) _ _ (λ c. returns same)
          (λ c.
            if-both (Ensures P) (has_active uuid s) _ _ (λ a. returns same)
              (λ a.
                if-both (Ensures P) (is_root current && has_open_descendant uuid s) _ _
                  (λ o. returns same) (λ o. returns (ended a)))))

pub converge_step-keeps :
    (P : Store → Type 0) (now : ℕ) (s : Store) (row : Node) (s' : Store)
    → P s
    → (has_active row.execution_uuid s ≡ false
        → P (record s { executions = map (converged_node now row.execution_uuid) s.executions }))
    → converge_step now s row ≡ ok s'
    → P s'
unfolding converge_step
converge_step-keeps P now s row s' same ended h =
    ensured
      (then-Ensures (λ (r : Store × Bool). P r.0) P (converge_cancellation now s row.execution_uuid)
        (λ r. ok r.0)
        (converge_cancellation-Ensures (λ (r : Store × Bool). P r.0) now s row.execution_uuid same
          ended)
        (λ r p. returns p))
      h

mem-tree_rows :
    (include_root : Bool) (root : String) (es : List Node) (e : Node)
    → Memᴰ e es
    → is_selected include_root root e ≡ true
    → Memᴰ e (tree_rows include_root root es)
mem-tree_rows include_root root es e m selected =
    elim (Bool-cases (is_some e.parent_execution_uuid)) [
      | inl child ↦ Memᴰ.append_left _ (
          mem-keep (λ e. is_selected include_root root e && is_some e.parent_execution_uuid) es m
            (both selected child))
      | inr top ↦
          Memᴰ.append_right
            (keep (λ e. is_selected include_root root e && is_some e.parent_execution_uuid) es)
            (mem-keep
              (λ e. is_selected include_root root e && not (is_some e.parent_execution_uuid)) es m
              (both selected (ap not top)))
    ]
  where
    both : {a b : Bool} → a ≡ true → b ≡ true → (a && b) ≡ true
    both h k = ground arith

-- The loops of a cancellation that raised nothing, with what every step of them keeps.
pub cancel_tree-keeps :
    (P : Store → Type 0) (include_root : Bool) (now : ℕ) (root : Node) (s : Store)
    (done : Store × ℕ)
    → cancel_tree include_root now root s ≡ ok done
    → P (fence_all now s (tree_rows include_root root.execution_uuid s.executions))
    → ((s : Store) (row : Node) (s' : Store) → P s → converge_step now s row ≡ ok s' → P s')
    → P done.0
unfolding cancel_tree
cancel_tree-keeps P include_root now root s done h fenced step =
    let rows = tree_rows include_root root.execution_uuid s.executions in
    let loops = (>>-eq-ok (require (is_root root) Tree.cancel_tree_root_invalid) _ h).1 in
    let r = >>=-eq-ok (fold_ok (converge_step now) (fence_all now s rows) rows) _ loops in
    ensured {P = λ (d : Store × ℕ). P d.0}
      (returns {a = (r.0, changed rows)}
        (fold_ok_inv P (converge_step now) step rows (fence_all now s rows) fenced r.1))
      r.2

-- After a cancellation of the tree of a root, every Process of an Execution of the tree that was
-- not ended is ended or being cancelled.
pub cancel_tree-stopped :
    (include_root : Bool) (now : ℕ) (root : Node) (s : Store) (done : Store × ℕ) (e : Node)
    → cancel_tree include_root now root s ≡ ok done
    → Memᴰ e s.executions
    → is_selected include_root root.execution_uuid e ≡ true
    → AllStopped e.execution_uuid done.0.processes
cancel_tree-stopped include_root now root s done e h m selected =
    cancel_tree-keeps (λ st. AllStopped e.execution_uuid st.processes) include_root now root s done
      h
      (fence_all-stops now s _ e
        (mem-tree_rows include_root root.execution_uuid s.executions e m selected))
      (λ st row st' k step.
        converge_step-keeps (λ st. AllStopped e.execution_uuid st.processes) now st row st' k
          (λ a. k) step)
