-- ===== src/Construction.antt =====
-- The construction of the two channels of every block and the plan of its vectors:
-- `content_full` of src/services/lsrag_compiler/models.py, src/services/lsrag_compiler/construct.py and
-- `validate_construction` of src/services/lsrag_compiler/validate.py.
pub mod Content
pub mod Separated
pub mod Model
pub mod Construct
pub mod Plan
pub mod Goes
pub mod Planned
pub mod Samples
