-- ===== src/Process.antt =====
-- The durable Process row and its transactions: claims, heartbeats, outcomes, retries, lease
-- recovery, operator restarts and cancellation (src/runtime/workflow/runtime_core.py,
-- src/runtime/workflow/runtime_outcome.py, src/runtime/workflow/runtime_repair.py, src/services/operator_control.py).
pub mod Row
pub mod Updates
pub mod Transaction
pub mod Claims
pub mod Outcomes
pub mod Recovery
pub mod Step
pub mod Sound
pub mod Fence
pub mod Terminal
pub mod Deliveries
mod Samples
