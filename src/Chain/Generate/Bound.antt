-- ===== src/Chain/Generate/Bound.antt =====
-- The size of a block.
use block_preempt.Prelude.{
  ℕ, ◌+◌, ◌-◌, ◌≤◌, ◌<◌, ◌≡◌, ap, ◌∙◌, true, false, length, take, length-take, arith,
}
use block_preempt.Prelude.Int.{ℤ, pos, negsuc, sub_ℕ}
use block_preempt.Params.{ChainConfig}
use block_preempt.Core.Transaction.{Transaction2}
use block_preempt.Core.TxPool.{TxPool, Accounts, fetch_txs2_pack}
use block_preempt.Core.TxPool.Fetch.{fetch_txs2_pack_front, fetch_txs2_pack_negative}
use block_preempt.Chain.Generate.{
  Migrations, count, left_count, generate_migrations, generate_txs, generate_block,
}
use block_preempt.Chain.Generate.Shared.{IsShared, generate_migrations_quota}

sub_ℕ_pos : (a b : ℕ) → b ≤ a → sub_ℕ a b ≡ pos (a - b)
sub_ℕ_pos a b h = ground arith

sub_ℕ_neg : (a b : ℕ) → a < b → sub_ℕ a b ≡ negsuc (b - a - 1)
sub_ℕ_neg a b h = ground arith

-- None of the experiments that hold transactions back is on.
abbrev pub IsOrdinary : ChainConfig → Type 0
IsOrdinary c =
    (c.bu_tong_bi_li ≡ false)
    × (c.bu_tong_shi_jian ≡ false)
    × (c.fail ≡ false)
    × (c.cross_chain ≡ false)

module _ (now : ℕ → ℤ) (gob_copy : Transaction2 → Transaction2) (c : ChainConfig) (acc : Accounts)
    (id height : ℕ) where
  generate_txs-IsOrdinary :
      (m : Migrations) (pool : TxPool)
      → IsOrdinary c
      → generate_txs now gob_copy c acc id height m pool
        ≡ fetch_txs2_pack now gob_copy c acc (left_count c m) (height + 1) pool
  unfolding generate_txs
  generate_txs-IsOrdinary m pool (h₁, h₂, h₃, h₄) = simp (h₁, h₂, h₃, h₄)

  -- Without the experiments that hold transactions back, a block fits: where the four fetches share the
  -- quota, `Bu_Tong_Bi_Li_2` is set and `MaxMigSize` is at most `MaxBlockSize`, the transactions and
  -- the migration transactions together are at most `MaxBlockSize`, and the transactions are the front
  -- of the queue.
  pub generate_block_bound :
      (pools : Migrations) (pool : TxPool)
      → IsOrdinary c
      → IsShared c
      → c.bu_tong_bi_li_2 ≡ true
      → c.max_mig_size ≤ c.max_block_size
      → let ((txs, m), _, _, _) = generate_block now gob_copy c acc id height pools pool in
        (length txs + count m ≤ c.max_block_size)
        × (txs ≡ take (c.max_block_size - count m) pool.queue)
  unfolding generate_block
  generate_block_bound pools pool ho hs hb le =
      let m = (generate_migrations c id pools).0 in
      let (within, _) = generate_migrations_quota c id pools hs hb in
      let front =
        fetch_txs2_pack_front now gob_copy c acc (height + 1) (c.max_block_size - count m) pool in
      let same : (generate_txs now gob_copy c acc id height m pool).0
          ≡ take (c.max_block_size - count m) pool.queue =
        ap (λ r. r.0) (generate_txs-IsOrdinary m pool ho)
        ∙ rw (sub_ℕ_pos c.max_block_size (count m) (omega arith)) front.0 in
      (omega (arith, ap length same, length-take (c.max_block_size - count m) pool.queue), same)

  -- Without those experiments, a block that takes more migration transactions than `MaxBlockSize` takes
  -- the whole transaction queue as well: the negative number that is left does not bound the fetch.
  pub generate_block_overrun :
      (pools : Migrations) (pool : TxPool)
      → IsOrdinary c
      → c.max_block_size < count (generate_migrations c id pools).0
      → (generate_block now gob_copy c acc id height pools pool).0.0 ≡ pool.queue
  unfolding generate_block
  generate_block_overrun pools pool ho lt =
      let m = (generate_migrations c id pools).0 in
      ap (λ r. r.0) (generate_txs-IsOrdinary m pool ho)
      ∙ rw (sub_ℕ_neg c.max_block_size (count m) lt)
          (fetch_txs2_pack_negative now gob_copy c acc (height + 1) (count m - c.max_block_size - 1)
            pool).0
