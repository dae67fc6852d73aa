-- ===== src/Compression.antt =====
-- cl/compression.c: Golomb codes on the streams of bits of BitIo.
pub mod Golomb
pub mod Code
pub mod RoundTrip
pub mod Sources
pub mod Write
pub mod ThroughFile
pub mod Ends
pub mod Tests
