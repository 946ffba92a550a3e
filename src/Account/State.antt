-- ===== src/Account/State.antt =====
-- account/account_state.go: the state of an account, as the state trie holds it.
use block_preempt.Prelude.Int.{ℤ}

-- `Migrate` is the shard that the account moves to, and -1 where it does not move.
pub record AccountState : Type 0 where
  pub balance : ℤ
  pub migrate : ℤ
  pub location : ℤ
