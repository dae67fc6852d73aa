-- ===== src/Sequence.antt =====
-- cl/cdaccess.c: the items of a positional attribute, from the plain or the Huffman-coded sequence.
pub mod Decode
pub mod Codes
pub mod Items
pub mod Blocks
pub mod Answers
mod Tests
