-- ===== src/Concurrency.antt =====
-- The locks and the thread pool of yacul/concurrency.
pub mod LockRange
pub mod LockId
pub mod Spinlock
pub mod ThreadPool
