-- ===== src/Outbox.antt =====
-- One delivery of the outbox: its lease, completion, release and death
-- (src/runtime/workflow/runtime_outbox.py).
pub mod Delivery
pub mod Ownership
mod Samples
