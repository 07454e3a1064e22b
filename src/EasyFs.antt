-- ===== src/EasyFs.antt =====
-- The crate easy-fs.
pub mod Config
pub mod Bitmap
pub mod BlockCache
pub mod Layout
pub mod Efs
