-- ===== src/Node.antt =====
-- internal/core/node: the inode, its typed contents and the directory operations.
pub mod Kinds
pub mod Flags
pub mod Content
pub mod Inode
pub mod Typed
pub mod Dir
