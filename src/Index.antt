-- ===== src/Index.antt =====
-- cl/cdaccess.c and utils/cwb-compress-rdx.c: positional attributes, and the index from the number of a
-- type to its positions.
pub mod Positional
pub mod Restrict
pub mod Lookup
pub mod Streams
pub mod Compress
pub mod Entry
pub mod Found
pub mod Ranges
pub mod Reading
pub mod Chunks
pub mod CheckId
pub mod Gaps
pub mod Elements
pub mod Rounds
pub mod WriteRead
pub mod RoundTrip
mod Tests
