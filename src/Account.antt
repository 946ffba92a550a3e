-- ===== src/Account.antt =====
-- account/: the state of an account, the table of shards, and the credit lines of the bank.
pub mod Hex
pub mod Table
pub mod State
pub mod Shards
pub mod Credit
pub mod Examples
