-- ===== src/Storage.antt =====
-- internal/storage/state.go: the SQLite tables behind `StateManager`.
pub mod Record
pub mod Sql
pub mod Downloads
pub mod Chunks
pub mod Queue
pub mod History
pub mod Atomic
pub mod Inserted
pub mod Created
pub mod Keeps
pub mod Rows
pub mod Ordering
pub mod Invariant
