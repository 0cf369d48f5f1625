-- ===== src/Aquifer.antt =====
-- crates/aquifer: the durable memory, of which the records (Types), the optimistic concurrency layer
-- (Txn), the lane locks, the working memory, the choice of diverse hits (Mmr), the chunks of long
-- records, the reconciliation of new ones, and the decay and eviction of old ones are modelled.
pub mod Types
pub mod Txn
pub mod LaneLock
pub mod Working
pub mod Mmr
pub mod Chunking
pub mod Reconcile
pub mod Decay
pub mod Eviction
mod Tests
mod RecallTests
mod EvictionTests
