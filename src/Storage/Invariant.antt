-- ===== src/Storage/Invariant.antt =====
-- The invariant of the tables, and the operations that keep it.
pub mod Slots
pub mod Renumber
pub mod Swap
pub mod Sums
pub mod Operations
pub mod Removal
pub mod Positions
pub mod Transactions
pub mod Writes
pub mod Reachable
