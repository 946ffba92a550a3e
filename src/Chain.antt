-- ===== src/Chain.antt =====
-- chain/blockchain.go: the blocks of a shard.
pub mod Generate
pub mod StateDb
pub mod Update
pub mod Execute
pub mod AddBlock
pub mod Examples
