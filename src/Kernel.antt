-- ===== src/Kernel.antt =====
-- The crate kernel.
pub mod Pipe
pub mod Recycle
pub mod Frames
pub mod Task
pub mod Sync
pub mod Slots
pub mod Calls
pub mod Address
pub mod PageEntry
pub mod PageTable
pub mod MapArea
pub mod MemorySet
pub mod Process
pub mod Threads
pub mod Paths
pub mod OsInode
pub mod Timer
pub mod Masking
