-- ===== src/Sync.antt =====
-- os/src/sync: the cells that the kernel shares its state by, and the locks that tasks share.
pub mod Up
pub mod Spin
pub mod Mutex
pub mod Condvar
pub mod Semaphore
