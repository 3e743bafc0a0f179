-- ===== src/Io.antt =====
-- src/io: the block I/O layer.
pub mod Chunks
pub mod Ring
pub mod Copy
pub mod Volume
