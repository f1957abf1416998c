-- ===== src/EventStore.antt =====
-- event_store.py
pub mod Rows
pub mod Chain
pub mod Session
pub mod Writes
pub mod Reads
pub mod Fork
pub mod Listing
pub mod Window
pub mod Copies
pub mod Keeping
pub mod Branching
pub mod Forking
pub mod Commands
pub mod Quiet
pub mod Forked
pub mod Integrity
pub mod Ledger
pub mod Verify
pub mod Guards
pub mod Append
pub mod Outcomes
pub mod Truncation
pub mod Children
pub mod Opening
pub mod Kept
pub mod Diagnostics
pub mod Visiting
