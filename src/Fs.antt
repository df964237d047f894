-- ===== src/Fs.antt =====
-- The file system of fs/: bitmap.c and what is built on it.
pub mod Bitmap
pub mod Bytes
pub mod Device
pub mod Mkfs
pub mod Unmount
pub mod Super
pub mod File
pub mod ReadWrite
pub mod Growth
pub mod Truncate
pub mod Dinode
pub mod Hlist
pub mod Inodes
mod Examples
mod FileExamples
mod InodeExamples
