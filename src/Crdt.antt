-- ===== src/Crdt.antt =====
-- ossa-crdt: the trait `CRDT` and the data types that implement it.
pub mod Time
pub mod Lamport
pub mod Lww
pub mod Im
pub mod TwoPMap
mod Tests
