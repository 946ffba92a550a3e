-- ===== src/Core/Examples.antt =====
-- The pools on small inputs.
use block_preempt.Prelude.{ℕ, ◌-◌, ◌≡◌, true, false, List, [], ◌∷◌, length, take, drop}
use block_preempt.Prelude.Int.{ℤ, pos}
use block_preempt.Params.{ChainConfig, config}
use block_preempt.Core.Transaction.{Transaction2, transaction2}
use block_preempt.Core.TxPool.{Ref, TxPool, Accounts, fetch_txs2_pack}
use block_preempt.Core.TxPool.Fetch.{fetch_txs2_pack_front}

abbrev now : ℕ → ℤ
now k = pos k

abbrev same : Transaction2 → Transaction2
same tx = tx

abbrev shipped : ChainConfig
shipped = config (83 ∷ 48 ∷ []) (78 ∷ 48 ∷ []) 2

abbrev locking : ChainConfig
locking = record shipped { lock_acc_when_migrating = true }

-- Every account is in this shard and locked.
abbrev all_locked : Accounts
all_locked = record {
  account_in_own_shard = λ a. true;
  lock_acc = λ a. true;
  outing_acc_before_announce = λ a. false;
}

-- One sender pays two recipients.
abbrev payment : Transaction2
payment = transaction2 (1 ∷ []) ((2 ∷ []) ∷ (3 ∷ []) ∷ []) (pos 5 ∷ pos 6 ∷ [])

abbrev pool_with : List Ref → TxPool
pool_with queue = record {
  store = λ r. payment;
  next_ref = 9;
  clock = 1;
  queue = queue;
  outing_before_announce_tx_pools = λ a. [];
  outing_after_announce_tx_pools = λ a. [];
  locking_tx_pools = λ a. [];
  bank_agg_tx_pools = λ a. [];
}

fetch_txs2_pack_front_example :
    let r = fetch_txs2_pack now same locking all_locked (pos 2) 7 (pool_with (4 ∷ 5 ∷ 6 ∷ [])) in
    (r.0 ≡ take 2 (4 ∷ 5 ∷ 6 ∷ []))
    × (r.2.queue ≡ drop 2 (4 ∷ 5 ∷ 6 ∷ []))
    × (r.1 ≡ length {A = Ref} (4 ∷ 5 ∷ 6 ∷ []) - 2)
fetch_txs2_pack_front_example =
    fetch_txs2_pack_front now same locking all_locked 7 2 (pool_with (4 ∷ 5 ∷ 6 ∷ []))
