-- ===== src/Pbft.antt =====
-- pbft/: the messages of a shard's nodes and their consensus.
pub mod Wire
mod Distinct
pub mod Node
mod Outcomes
pub mod Handlers
pub mod Steps
pub mod Follower
pub mod Relay
pub mod Examples
pub mod FromClient
