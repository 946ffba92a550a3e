-- ===== src/Chain/Examples/Blocks.antt =====
-- Blocks on small inputs.
use block_preempt.Prelude.{
  ℕ, ◌+◌, ◌-◌, ◌≡◌, refl, ◌≤◌, ◌<◌, true, false, none, some, [], ◌∷◌, length, take, arith,
}
use block_preempt.Prelude.Int.{ℤ, pos}
use block_preempt.Params.{ChainConfig}
use block_preempt.Trie.Nibbles.{Bytes}
use block_preempt.Account.Hex.{Str, decode_string}
use block_preempt.Core.Transaction.{Transaction2}
use block_preempt.Core.TxPool.{Accounts}
use block_preempt.Chain.Generate.{
  Migrations, no_migrations, count, generate_migrations, generate_block,
}
use block_preempt.Chain.Generate.Quota.{Keeps, generate_migrations-Keeps}
use block_preempt.Chain.Generate.Bound.{generate_block_bound, generate_block_overrun}
use block_preempt.Core.Pools.{fetch_txmig1s2_pack}
use block_preempt.Chain.Update.{World, settle_mig2}
use block_preempt.Chain.Execute.{apply_ann}
use block_preempt.Chain.AddBlock.{Tables, add_block_tables, add_block}
use block_preempt.Chain.AddBlock.Moves.{Announced, Arriving, add_block_moves}
use block_preempt.Chain.Execute.{exec_txs, each, get_updated_tree_of_state}
use block_preempt.Chain.Examples.{
  db, pack, shipped, here, pool, world, mig1, mig2, ann, key_1, key_2,
}

abbrev one_mig1 : Migrations
one_mig1 = record no_migrations { mig1s = mig1 ∷ []; mig2s = mig2 ∷ [] }

abbrev all_first : ChainConfig
all_first = record shipped { bu_tong_bi_li_2 = false; max_block_size = 0 }

generate_migrations-Keeps_example : Keeps one_mig1 (generate_migrations shipped 7 one_mig1)
generate_migrations-Keeps_example = generate_migrations-Keeps shipped 7 one_mig1

abbrev now : ℕ → ℤ
now k = pos k

abbrev same : Transaction2 → Transaction2
same tx = tx

abbrev all_here : Accounts
all_here = record {
  account_in_own_shard = λ a. true;
  lock_acc = λ a. false;
  outing_acc_before_announce = λ a. false;
}

generate_block_bound_example :
    let ((txs, m), _, _, _) = generate_block now same shipped all_here 7 3 one_mig1 pool in
    (length txs + count m ≤ 2000) × (txs ≡ take (2000 - count m) (4 ∷ 5 ∷ []))
generate_block_bound_example =
    generate_block_bound now same shipped all_here 7 3 one_mig1 pool (refl, refl, refl, refl)
      (refl, refl, refl, refl) refl (omega arith)

one_more : 0 < count (generate_migrations all_first 7 one_mig1).0
unfolding generate_migrations fetch_txmig1s2_pack
one_more = omega arith

generate_block_overrun_example :
    (generate_block now same all_first all_here 7 3 one_mig1 pool).0.0 ≡ 4 ∷ 5 ∷ []
generate_block_overrun_example =
    generate_block_overrun now same all_first all_here 7 3 one_mig1 pool (refl, refl, refl, refl)
      one_more

-- A node that is not N0; the account 02 is announced, and the account 01 arrives.
abbrev member : ChainConfig
member = record shipped { node_id = 78 ∷ 49 ∷ [] }

abbrev other_addr : Str
other_addr = 48 ∷ 50 ∷ []

abbrev moves : Migrations
moves = record no_migrations {
  mig2s = mig2 ∷ [];
  anns = (record ann { address = other_addr }) ∷ [];
}

abbrev no_root : db.S → Bytes
no_root s = []

abbrev tables : Tables
tables = record {
  shards = record { account2shard = λ a. none; account_in_own_shard = λ a. false };
  lock_acc = λ a. false;
}

abbrev moved_world : World db member (pos 0)
moved_world = record (world member) {
  st =
      db.update (db.update (world member).st key_1 (pack (record here { balance = pos 40 }))) key_2
        (pack (record here { location = pos 1 }));
}

moved_returns :
    add_block db member (pos 0) no_root 4 [] [] moves (world member, tables)
    ≡ some (moved_world, add_block_tables member (pos 0) 4 moves tables)
unfolding add_block get_updated_tree_of_state settle_mig2 apply_ann each exec_txs decode_string
moved_returns = refl

add_block_moves_example :
    let t' = add_block_tables member (pos 0) 4 moves tables in
    (no_root moved_world.st ≡ [])
    × ((a : Str) → Announced a moves.anns → t'.shards.account_in_own_shard a ≡ false)
    × ((a : Str)
        → Arriving a moves.mig2s
        → ¬ Announced a moves.anns
        → t'.shards.account_in_own_shard a ≡ true)
add_block_moves_example =
    add_block_moves db member (pos 0) no_root 4 [] [] moves (world member) moved_world tables
      (add_block_tables member (pos 0) 4 moves tables) refl refl moved_returns
