-- ===== src/Pht.antt =====
-- The parallel hash table laboratory, pht/src: the hash function, one chain, the table without locks,
-- and the two versions with locks.
pub mod Hash
pub mod Chain
pub mod Base
pub mod Locked
pub mod V1
pub mod V2
pub mod Tester
mod Tests
