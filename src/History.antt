-- ===== src/History.antt =====
-- crates/panora-core/src/storage/db.rs.
pub mod Defs
pub mod Rows
pub mod Entries
pub mod Blobs
pub mod Retention
pub mod Feed
pub mod Sequence
pub mod Validity
pub mod Keyring
pub mod Keeps
pub mod Resealed
pub mod Calls
pub mod Bounds
pub mod Bytes
pub mod Pinned
pub mod Placement
pub mod Resume
pub mod Orphans
pub mod Undo
pub mod Inherits
pub mod Clock
mod Examples
