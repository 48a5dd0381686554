-- ===== src/Registry.antt =====
-- The session registry of ma-core/src/registry: the records of sessions, the index sets over them,
-- the claims of annotators and their credentials, all kept in Redis.
pub mod Redis
pub mod Schema
pub mod Records
pub mod Sessions
pub mod Transfer
pub mod Sets
pub mod Effects
pub mod Keys
pub mod Coherence
pub mod Calls
pub mod Refines
pub mod Stored
pub mod Claims
pub mod Script
pub mod Counted
pub mod Elsewhere
pub mod Matching
pub mod Kept
pub mod Exclusive
pub mod Scans
pub mod Annotators
pub mod Retention
