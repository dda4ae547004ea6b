-- ===== src/Task.antt =====
-- os/src/task: numbers of tasks, and who runs.
pub mod Id
pub mod Signals
pub mod Mmap
pub mod Timers
pub mod Scheduler
