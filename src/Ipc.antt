-- ===== src/Ipc.antt =====
-- The host end of a worklet's ipc: src/ipc.h and src/ipc.c.
pub mod State
pub mod Ops
pub mod Stream
pub mod Read
pub mod Ready
pub mod Keep
pub mod Journey
pub mod Signal
mod Tests
