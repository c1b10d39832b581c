-- ===== src/Dispatch.antt =====
-- The dispatch pools: src/runtime/workflow/dispatch.py, and the admission of waiting Processes,
-- `_admit_waiting_processes_tx` of src/runtime/workflow/runtime_core.py.
pub mod Policy
pub mod Lanes
pub mod Admission
pub mod Caps
mod Samples
