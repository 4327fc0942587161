-- ===== src/Unix.antt =====
-- src/unix/: sockets of the unix domain.
pub mod Stream
pub mod Listener
pub mod Futures
