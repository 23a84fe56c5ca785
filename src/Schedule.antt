-- ===== src/Schedule.antt =====
-- The slotted schedule (src/vrm/schedule).
pub mod Slot
pub mod LoadBuffer
pub mod Context
pub mod Strategy
pub mod Update
pub mod Delete
pub mod Fit
pub mod NodeStrategy
pub mod Operations
pub mod LinkStrategy
pub mod Sound
