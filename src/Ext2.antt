-- ===== src/Ext2.antt =====
-- src/ext2.c and include/ext2.h, over the sector operations of a block device.
pub mod Structs
pub mod Inode
pub mod Dirent
pub mod Path
pub mod File
pub mod Superblock
pub mod Keeps
pub mod SelfTest
