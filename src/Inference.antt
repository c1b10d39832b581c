-- ===== src/Inference.antt =====
-- Calls of models: src/runtime/inference/facade.py and src/runtime/inference/agent_router.py.
pub mod Gate
pub mod Leases
pub mod Attempts
pub mod Recorded
pub mod Retries
pub mod Router
pub mod Order
pub mod Asked
pub mod Chosen
pub mod Samples
