-- ===== src/Worklet.antt =====
-- The worklets of src/worklet.c and src/worklet.h, with src/suspension.c.
pub mod State
pub mod Control
pub mod Native
pub mod Bundle
pub mod Thread
pub mod Create
mod Tests
pub mod Process
pub mod Platform
