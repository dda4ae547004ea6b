-- ===== src/Mm.antt =====
-- The memory management of the kernel: os/src/mm.
pub mod Address
pub mod FrameAllocator
pub mod PageTable
pub mod MemorySet
