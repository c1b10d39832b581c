-- ===== src/Structure.antt =====
-- The structure documents and projections of the layered content compiler,
-- src/services/lsrag_compiler.
pub mod Model
pub mod Texts
pub mod Names
pub mod Tree
pub mod Validate
pub mod Candidate
pub mod Adopt
pub mod Reading
pub mod Sorting
pub mod Anchored
pub mod Accepted
pub mod Granularities
pub mod Checked
pub mod Projected
pub mod Redundant
pub mod Order
pub mod Samples
