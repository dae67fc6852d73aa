-- ===== src/Cqi.antt =====
-- CQi/server.c: the protocol between the query server and its clients.
pub mod Send
pub mod Receive
pub mod Encoding
pub mod Values
pub mod RoundTrip
pub mod Typed
pub mod Messages
pub mod Names
pub mod Specs
pub mod AttHash
pub mod AttHashLaws
pub mod AttHashStays
pub mod AttLookup
pub mod AttHashRoom
pub mod Tests
