-- ===== src/Io.antt =====
-- src/io.rs: printing to the standard output and error.
pub mod Print
pub mod Stdout
pub mod Macros
