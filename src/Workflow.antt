-- ===== src/Workflow.antt =====
-- Declarative workflow definitions: src/contracts/workflow/models.py.
pub mod Kinds
pub mod Model
pub mod Shapes
pub mod Guards
pub mod Definition
mod Samples
