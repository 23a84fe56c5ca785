-- ===== src/Workflow.antt =====
-- Workflows (src/vrm/workflow).
pub mod Types
pub mod CoAllocation
pub mod Rank
pub mod Dto
pub mod Build
pub mod Graph
pub mod Groups
pub mod Create
