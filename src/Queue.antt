-- ===== src/Queue.antt =====
-- The bidirectional message queue between the worklet (uv) end and the host (thread) end:
-- src/queue.h and src/queue.c.
pub mod State
pub mod Ops
pub mod Channel
pub mod Payload
pub mod Inv
pub mod Refine
pub mod Drain
pub mod Calls
pub mod Correct
pub mod History
pub mod Locking
pub mod Lifetime
pub mod Wake
pub mod Delivery
pub mod Whole
pub mod Blocks
mod Tests
mod Runs
