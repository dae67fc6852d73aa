-- ===== src/BitIo.antt =====
-- cl/bitio.c: bit-wise input and output, over files (`BFile`) and over memory (`BStream`).
pub mod Buffer
pub mod File
pub mod Bits
pub mod Extends
pub mod Write
pub mod Flush
pub mod Read
pub mod Stream
pub mod Word
pub mod WriteWord
pub mod Tests
pub mod Memory
