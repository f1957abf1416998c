-- ===== src/Samples.antt =====
-- Concrete instances of what the development takes as a parameter, on which its theorems are tried.
pub mod Machine
pub mod Ledger
pub mod Events
pub mod Outcomes
pub mod Codec
pub mod Dicts
pub mod Projection
pub mod Framing
pub mod Refused
pub mod Links
pub mod Forks
pub mod Branches
pub mod Waits
pub mod Settings
pub mod Schema
pub mod Walks
pub mod Scans
pub mod Replays
pub mod Packs
pub mod Runtimes
pub mod Listings
