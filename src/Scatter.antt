-- ===== src/Scatter.antt =====
-- The fan-in of a scatter: src/runtime/workflow/runtime_scatter.py.
pub mod Members
pub mod Children
pub mod Converge
pub mod Paired
pub mod Sorted
pub mod Joined
pub mod Sound
pub mod Failing
pub mod Samples
