-- ===== src/Wut.antt =====
-- The user threads of wut/src/wut.c: their state, the operations, and what a program sees of them.
pub mod State
pub mod Memory
pub mod Create
pub mod Schedule
pub mod Cancel
pub mod Program
pub mod Keeps
mod Tests
