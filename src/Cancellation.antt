-- ===== src/Cancellation.antt =====
-- The cancellation of a tree of Executions: `request_cancellation`, `_cancel_execution_tree_tx` and
-- `_converge_cancellation_tx` of src/runtime/workflow/runtime_outcome.py.
pub mod Tree
pub mod Stopped
pub mod Converged
mod Samples
