-- ===== src/Fs.antt =====
-- The file system: kernel/fs/vfs.c and kernel/fs/ramfs.c.
pub mod State
pub mod Ramfs
pub mod Path
pub mod Descriptors
pub mod Vfs
pub mod Content
pub mod Mounts
pub mod Parts
pub mod Walk
pub mod Dir
pub mod Unlink
pub mod Files
pub mod Roundtrip
mod Tests
