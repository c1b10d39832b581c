-- ===== src/Cancellation/Tree.antt =====
-- The tables that a cancellation reads and writes, its statements and its loops.
use myknowledgebase.Prelude.{
  ℕ, suc, String, Bool, true, false, not, ◌&&◌, ◌||◌, Option, none, some, List, [], ◌∷◌, ◌++◌, map,
  any, keep, ◌==◌, string_eq, option_eq, Result, ok, ◌>>=◌, ◌>>◌, require, fold_ok, of_option,
  if◌then◌else◌, is_some,
}
use myknowledgebase.Process.Row.{
  Process, ExecutionStatus, is_active, is_terminal_execution, is_cancelling_execution, coalesce,
}
use myknowledgebase.Process.Recovery.{cancel_process}

pub record Node : Type 0 where
  pub execution_uuid : String
  pub root_execution_uuid : String
  pub parent_execution_uuid : Option String
  pub status : ExecutionStatus
  pub cancel_requested_at : Option ℕ
  pub completed_at : Option ℕ

-- A gate, whether it is open.
pub record Gate : Type 0 where
  pub gate_execution_uuid : String
  pub is_open : Bool

pub data Staging : Type 0 where
  «open» sealed accepted abandoned : Staging

pub record CandidateSet : Type 0 where
  pub producer_execution_uuid : String
  pub staging_state : Staging

-- The Executions are kept in the order of their identifiers.
pub record Store : Type 0 where
  pub executions : List Node
  pub processes : List Process
  pub gates : List Gate
  pub candidate_sets : List CandidateSet

pub data Fault : Type 0 where
  execution_not_found cancel_tree_root_invalid : Fault

abbrev pub find_node : List Node → String → Option Node
find_node [] uuid = none
find_node (e ∷ es) uuid =
    let rest = find_node es uuid in if e.execution_uuid == uuid then some e else rest

-- `_execution`
abbrev pub execution_of : Store → String → Result Fault Node
execution_of s uuid = of_option (find_node s.executions uuid) execution_not_found

abbrev pub is_root : Node → Bool
is_root e = e.root_execution_uuid == e.execution_uuid

-- `status NOT IN ('succeeded','failed','cancelled','cancelling')`
abbrev pub may_be_cancelled : ExecutionStatus → Bool
may_be_cancelled status = not (is_terminal_execution status) && not (is_cancelling_execution status)

abbrev pub fenced_node : ℕ → String → Node → Node
fenced_node now uuid e =
    if (e.execution_uuid == uuid) && may_be_cancelled e.status
    then record e {
      status = ExecutionStatus.cancelling;
      cancel_requested_at = coalesce e.cancel_requested_at (some now);
    }
    else e

abbrev pub superseded : String → Gate → Gate
superseded uuid g = if g.gate_execution_uuid == uuid then record g { is_open = false } else g

abbrev pub abandoned_state : Staging → Staging
abandoned_state «open» = abandoned
abandoned_state sealed = abandoned
abandoned_state accepted = accepted
abandoned_state abandoned = abandoned

-- The statement tests the team as well; a tree is of one team.
abbrev pub abandoned_set : String → CandidateSet → CandidateSet
abandoned_set uuid c =
    if c.producer_execution_uuid == uuid
    then record c { staging_state = abandoned_state c.staging_state }
    else c

-- The three statements on the Processes of an Execution, row by row.
abbrev pub cancelled_process : ℕ → String → Process → Process
cancelled_process now uuid p = if p.execution_uuid == uuid then cancel_process now p else p

-- The body of the first loop.
unfoldable pub fence_execution : ℕ → Store → Node → Store
fence_execution now s row = record {
  executions = map (fenced_node now row.execution_uuid) s.executions;
  processes = map (cancelled_process now row.execution_uuid) s.processes;
  gates = map (superseded row.execution_uuid) s.gates;
  candidate_sets = map (abandoned_set row.execution_uuid) s.candidate_sets;
}

unfoldable pub fence_all : ℕ → Store → List Node → Store
unfolding fence_execution
fence_all now s [] = s
fence_all now s (row ∷ rows) = fence_all now (fence_execution now s row) rows

-- How many rows the first loop sent to cancelling.
abbrev pub changed : List Node → ℕ
changed [] = 0
changed (row ∷ rows) =
    let rest = changed rows in if may_be_cancelled row.status then suc rest else rest

-- `SELECT COUNT(*)` of the active Processes, as a test against zero.
abbrev pub has_active : String → Store → Bool
has_active uuid s = any (λ p. (p.execution_uuid == uuid) && is_active p.status) s.processes

abbrev pub has_open_descendant : String → Store → Bool
has_open_descendant uuid s =
    any
      (λ e.
        (e.root_execution_uuid == uuid)
        && not (e.execution_uuid == uuid)
        && not (is_terminal_execution e.status))
      s.executions

abbrev pub converged_node : ℕ → String → Node → Node
converged_node now uuid e =
    if (e.execution_uuid == uuid) && is_cancelling_execution e.status
    then record e { status = ExecutionStatus.cancelled; completed_at = some now }
    else e

-- `_converge_cancellation_tx`
unfoldable pub converge_cancellation : ℕ → Store → String → Result Fault (Store × Bool)
converge_cancellation now s uuid = do
  current ← execution_of s uuid
  if not (is_cancelling_execution current.status)
      then ok (s, false)
      else if has_active uuid s
      then ok (s, false)
      else if is_root current && has_open_descendant uuid s
      then ok (s, false)
      else ok (record s { executions = map (converged_node now uuid) s.executions }, true)

unfoldable pub converge_step : ℕ → Store → Node → Result Fault Store
unfolding converge_cancellation
converge_step now s row = converge_cancellation now s row.execution_uuid >>= λ r. ok r.0

-- `WHERE root_execution_uuid=? AND status NOT IN (...)`, children before roots.
abbrev pub is_selected : (include_root : Bool) → String → Node → Bool
is_selected include_root root e =
    (e.root_execution_uuid == root)
    && (include_root || not (e.execution_uuid == root))
    && not (is_terminal_execution e.status)

abbrev pub tree_rows : (include_root : Bool) → String → List Node → List Node
tree_rows include_root root es =
    keep (λ e. is_selected include_root root e && is_some e.parent_execution_uuid) es
    ++ keep (λ e. is_selected include_root root e && not (is_some e.parent_execution_uuid)) es

-- `_cancel_execution_tree_tx`
unfoldable pub cancel_tree : (include_root : Bool) → ℕ → Node → Store → Result Fault (Store × ℕ)
unfolding fence_all converge_step
cancel_tree include_root now root s = do
  require (is_root root) cancel_tree_root_invalid
  let rows = tree_rows include_root root.execution_uuid s.executions
  converged ← fold_ok (converge_step now) (fence_all now s rows) rows
  ok (converged, changed rows)

-- `request_cancellation`: the reply is whether there was anything to cancel.
unfoldable pub request_cancellation : ℕ → String → Store → Result Fault (Store × Bool)
unfolding cancel_tree
request_cancellation now uuid s = do
  execution ← execution_of s uuid
  if is_terminal_execution execution.status
      then ok (s, false)
      else (execution_of s execution.root_execution_uuid >>= λ root.
          cancel_tree true now root s >>= λ r. ok (r.0, true))
