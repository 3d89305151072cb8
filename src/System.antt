-- ===== src/System.antt =====
-- The queries of yacul/system.
pub mod Streams
pub mod Sockets
pub mod MemoryInfo
pub mod CpuStats
pub mod Processes
pub mod Caches
pub mod Refresh
pub mod Mounts
pub mod Network
pub mod Tables
mod Tests
