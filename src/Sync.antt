-- ===== src/Sync.antt =====
-- kernel/sync: the blocking loop that the waiting functions share, and the primitives.
pub mod Wait
pub mod Semaphore
pub mod Mutex
pub mod Queue
pub mod Event
