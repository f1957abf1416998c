-- ===== src/Runtime.antt =====
-- runtime.py: replay, forking, and the two wait loops.
pub mod Replay
pub mod Repair
pub mod Waiting
pub mod Deadline
