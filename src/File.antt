-- ===== src/File.antt =====
-- src/fs.rs: a file, whose operations share one ring and one buffer and keep the position in it.
pub mod Handle
pub mod Transfer
pub mod Position
pub mod Opening
pub mod Seek
pub mod Sound
pub mod Reading
pub mod Writing
pub mod Closing
pub mod System
pub mod Drops
pub mod Stale
