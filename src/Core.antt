-- ===== src/Core.antt =====
-- internal/core: the split of a file into chunks, and the progress of a download.
pub mod Chunks
pub mod Progress
pub mod Transfer
pub mod ContentRange
pub mod Worker
pub mod Backoff
pub mod Throttle
pub mod UnknownSize
pub mod Names
pub mod Info
pub mod Paths
pub mod Files
pub mod Address
