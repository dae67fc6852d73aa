-- ===== src/LexHash.antt =====
-- cl/lexhash.c: hash tables with chaining that count strings and number them. A string is the list
-- of its bytes before the terminating 0. Entries are held in the lists of their buckets; a pointer to
-- an entry is its contents, which no other entry of the table has the key of. The payload (`data`)
-- is initialised and never read here, and `cleanup_func` is only called on an entry that is about to
-- be freed; both are left out. Counters stay below 2^31, but for the wrap of `freq` at 2^32.
pub mod Hashing
pub mod Chain
pub mod Ops
pub mod Prime
pub mod Bucket
pub mod Table
pub mod Grow
pub mod Methods
pub mod Add
pub mod Remove
pub mod Lexicon
pub mod Iterator
pub mod Tests
