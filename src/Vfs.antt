-- ===== src/Vfs.antt =====
-- internal/vfs: the file system service over drives and inodes.
pub mod Path
pub mod Resolve
pub mod Service
pub mod Remove
pub mod Make
pub mod Transfer
pub mod Show
