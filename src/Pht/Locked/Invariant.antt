-- ===== src/Pht/Locked/Invariant.antt =====
-- What holds in every state that the threads of pht/src/hash-table-v1.c or hash-table-v2.c reach.
mod Defs
mod Fields
pub use Defs.*
pub use Fields.{Step-Inv, Reach-Inv}
