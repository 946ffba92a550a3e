-- ===== src/Account/Shards/Table.antt =====
-- The table of shards through `Addr2Shard`.
use block_preempt.Prelude.{◌≡◌, ◌≢◌, true, some}
use block_preempt.Prelude.Int.{ℤ}
use block_preempt.Params.{ChainConfig}
use block_preempt.Account.Hex.{Str}
use block_preempt.Account.Shards.{Shards, eq_ℤ}

-- An address that the table places in this shard is marked as being there.
abbrev pub IsShards : ℤ → Shards → Type 0
IsShards own t =
    (a : Str) (s : ℤ)
    → t.account2shard a ≡ some s
    → eq_ℤ s own ≡ true
    → t.account_in_own_shard a ≡ true

record Entered (c : ChainConfig) (own : ℤ) (addr : Str) (t : Shards) (s : ℤ) (t' : Shards)
    : Type 0 where
  here : t'.account2shard addr ≡ some s
  others : (b : Str) → addr ≢ b → t'.account2shard b ≡ t.account2shard b
  marked : IsShards own t → IsShards own t'
