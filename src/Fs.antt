-- ===== src/Fs.antt =====
-- The files of the kernel: os/src/fs.
pub mod Pipe
