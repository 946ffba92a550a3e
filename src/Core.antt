-- ===== src/Core.antt =====
-- core/: the transactions, the migration transactions and their pools.
pub mod Pools
pub mod Transaction
pub mod Migration
pub mod TxPool
pub mod Examples
