-- ===== src/Marshal.antt =====
-- marshal.c: objects written to bytes and read back.
pub mod Words
pub mod Objects
pub mod Known
pub mod Writer
pub mod Reader
pub mod Pieces
pub mod Leaf
pub mod Memory
mod Tests
