-- ===== src/Bucket.antt =====
-- The Bucket controller, what it assumes of a healthy world, and what it achieves there.
pub mod Defs
pub mod Ids
pub mod Server
pub mod Sync
pub mod Converges
pub mod Cleanup
pub mod Deletes
pub mod Writes
pub mod Found
pub mod Gone
pub mod Authority
pub mod History
pub mod NilList
pub mod Bounds
