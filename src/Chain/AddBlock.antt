-- ===== src/Chain/AddBlock.antt =====
-- chain/blockchain.go, `AddBlock`: the tables of accounts, and the comparison of the state roots. Storage
-- and the log are not modelled, `root` is the hash of the state trie, and `none` is a panic.
pub mod Moves
use block_preempt.Prelude.{
  ℕ, ◌+◌, ◌≡◌, refl, ◌∙◌, ◌≢◌, Bool, true, false, not, ◌&&◌, Option, none, some, List, [], ◌∷◌,
  ◌==◌, if◌then◌else◌, ◌>>=◌, Bool-cases, ◌⊎◌, inl, inr,
}
use block_preempt.Prelude.Int.{ℤ}
use block_preempt.Params.{ChainConfig, migrating_address}
use block_preempt.Trie.Nibbles.{Bytes}
use block_preempt.Account.Hex.{Str, str_eq, str_eq_refl, str_eq_sound, str_eq_ne}
use block_preempt.Account.Shards.{Shards, assign}
use block_preempt.Core.Migration.{TxMig1, TxMig2, TxAnn}
use block_preempt.Core.TxPool.{Ref}
use block_preempt.Chain.Generate.{Migrations}
use block_preempt.Chain.StateDb.{StateDb}
use block_preempt.Chain.Update.{World}
use block_preempt.Chain.Execute.{get_updated_tree_of_state}

-- `account.Account2Shard` with `AccountInOwnShard`, and `account.Lock_Acc`.
pub record Tables : Type 0 where
  pub shards : Shards
  pub lock_acc : Str → Bool

module _ (own : ℤ) where
  -- The accounts that move in are entered.
  unfoldable pub arrive : List TxMig2 → Tables → Tables
  arrive [] t = t
  arrive (v ∷ rest) t = arrive rest (record t {
    shards = record {
      account2shard = assign t.shards.account2shard v.address (some own);
      account_in_own_shard = assign t.shards.account_in_own_shard v.address true;
    };
  })

-- An announced account gets its new shard, and is taken out of this one and, with locks, unlocked.
unfoldable pub depart : ChainConfig → List TxAnn → Tables → Tables
depart c [] t = t
depart c (v ∷ rest) t = depart c rest (record {
  shards = record {
    account2shard = assign t.shards.account2shard v.address (some v.toshard_id);
    account_in_own_shard = assign t.shards.account_in_own_shard v.address false;
  };
  lock_acc = if c.lock_acc_when_migrating then assign t.lock_acc v.address false else t.lock_acc;
})

unfoldable pub lock_accounts : List TxMig1 → Tables → Tables
lock_accounts [] t = t
lock_accounts (v ∷ rest) t =
    lock_accounts rest (record t { lock_acc = assign t.lock_acc v.address true })

-- "N0"
abbrev pub n0 : Str
n0 = 78 ∷ 48 ∷ []

-- The tables after a block with the number `number`.
unfoldable pub add_block_tables : ChainConfig → ℤ → ℕ → Migrations → Tables → Tables
unfolding arrive depart lock_accounts
add_block_tables c own number m t =
    let member = not (str_eq c.node_id n0) in
    let t1 = if not c.stop_when_migrating then arrive own m.mig2s t else t in
    let t2 = if not c.stop_when_migrating && member then depart c m.anns t1 else t1 in
    let t3 = if c.lock_acc_when_migrating && member then lock_accounts m.mig1s t2 else t2 in
    if c.fail && (c.fail_time + 1 == number) && c.lock_acc_when_migrating
    then record t3 { lock_acc = assign t3.lock_acc migrating_address false }
    else t3

-- The world and the tables behind a block whose header carries the root `state_root`.
unfoldable pub add_block :
    (db : StateDb) (c : ChainConfig) (own : ℤ)
    → (db.S → Bytes)
    → ℕ
    → Bytes
    → List Ref
    → Migrations
    → World db c own × Tables
    → Option (World db c own × Tables)
unfolding add_block_tables
add_block db c own root number state_root txs m (w, t) =
    get_updated_tree_of_state db c own true txs m w >>= λ w'.
    if str_eq state_root (root w'.st) then some (w', add_block_tables c own number m t) else none
