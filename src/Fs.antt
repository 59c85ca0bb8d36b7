-- ===== src/Fs.antt =====
-- The MINIX 3 file server, sdios/src/minix3fs/servers/fs: a module for each part of it.
pub mod Words
pub mod Bits
pub mod Super
pub mod Inode
pub mod Locks
pub mod Bitmap
pub mod Zones
pub mod Mapping
pub mod Protect
pub mod Filedes
pub mod Name
pub mod Directory
pub mod Volume
pub mod Truncate
pub mod InodeTable
pub mod Seek
pub mod Pipe
pub mod Cache
