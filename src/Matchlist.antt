-- ===== src/Matchlist.antt =====
-- cqp/matchlist.c: lists of matches and the operations on sets of them.
pub mod Rows
pub mod Setop
pub mod Sets
pub mod Order
pub mod Passes
pub mod Operations
pub mod Tests
