-- ===== src/GraphStore.antt =====
-- graph_store.py
pub mod Rows
pub mod ObjectSeq
pub mod Session
pub mod Objects
pub mod Relations
pub mod Queries
pub mod Lifecycle
pub mod Rebuild
pub mod Stored
pub mod Atomic
pub mod Linked
pub mod Opening
pub mod Kept
