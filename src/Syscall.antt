-- ===== src/Syscall.antt =====
-- os/src/syscall: the system calls.
pub mod Sync
