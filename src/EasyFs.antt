-- ===== src/EasyFs.antt =====
-- The file system library: easy-fs.
pub mod Disk
pub mod BlockCache
pub mod Bitmap
pub mod Layout
pub mod Efs
pub mod Directories
