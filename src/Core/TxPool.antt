-- ===== src/Core/TxPool.antt =====
-- core/txpool.go: the transaction pool. The queues of the source hold pointers, and one transaction may
-- stand in several queues: a queue here is a list of references into `store`. `now k` is the k-th
-- reading of the clock, and `gob_copy` what `DecodeTx2` makes of `Encode`. The locks are held for the
-- whole of each method, so a method is one step.
pub mod Plain
pub mod Fetch
pub mod Lock
pub mod Bank
use block_preempt.Prelude.{
  ℕ, zero, suc, ◌+◌, ◌-◌, Bool, true, false, not, ◌&&◌, ◌||◌, List, [], ◌∷◌, ◌++◌, length, drop,
  ltb, ◌==◌, if◌then◌else◌,
}
use block_preempt.Prelude.Int.{ℤ, pos, negsuc, ltb_ℤ}
use block_preempt.Params.{ChainConfig}
use block_preempt.Account.Hex.{Str, str_eq, hex, str_eq_refl, str_eq_ne}
use block_preempt.Trie.Nibbles.{Bytes}
use block_preempt.Core.Transaction.{Transaction2}

abbrev pub Ref : Type 0
Ref = ℕ

-- A Go map to slices: a missing key reads as the empty slice.
abbrev pub Pools : Type 0
Pools = Str → List Ref

abbrev pub append_at : Pools → Str → List Ref → Pools
append_at pools key refs j = if str_eq key j then pools key ++ refs else pools j

abbrev pub delete_at : Pools → Str → Pools
delete_at pools key j = if str_eq key j then [] else pools j

pub record TxPool : Type 0 where
  pub store : Ref → Transaction2
  pub next_ref : Ref
  pub clock : ℕ
  pub queue : List Ref
  pub outing_before_announce_tx_pools : Pools
  pub outing_after_announce_tx_pools : Pools
  pub locking_tx_pools : Pools
  pub bank_agg_tx_pools : Pools

-- The account maps of account/account_state.go that the pool reads: a missing key reads as false.
pub record Accounts : Type 0 where
  pub account_in_own_shard : Str → Bool
  pub lock_acc : Str → Bool
  pub outing_acc_before_announce : Str → Bool

abbrev pub write_ref : TxPool → Ref → Transaction2 → TxPool
write_ref pool r tx = record pool { store = λ q. if r == q then tx else pool.store q }

unfoldable pub add_tx : TxPool → Ref → TxPool
add_tx pool tx = record pool { queue = pool.queue ++ tx ∷ [] }

unfoldable pub add_txs : TxPool → List Ref → TxPool
add_txs pool txs = record pool { queue = pool.queue ++ txs }

-- `if tx.LockTime > 0 { tx.LockTime2 = now } else { tx.LockTime = now }`
abbrev pub stamp_lock : ℤ → Transaction2 → Transaction2
stamp_lock t tx =
    if ltb_ℤ (pos 0) tx.lock_time then record tx { lock_time2 = t } else record tx { lock_time = t }

-- What is written to a transaction whose sender is locked, and to one whose recipient is.
abbrev pub lock_sender : ChainConfig → ℕ → ℤ → Transaction2 → Transaction2
lock_sender c block_number t tx =
    let tx' = stamp_lock t tx in
    record tx' {
      sen_lock = true;
      sen_suppose_on_chain =
          if c.not_lock_immediately && (tx.sen_suppose_on_chain == 0)
          then block_number
          else tx.sen_suppose_on_chain;
    }

abbrev pub lock_recipient : ChainConfig → ℕ → ℤ → Transaction2 → Transaction2
lock_recipient c block_number t tx =
    let tx' = stamp_lock t tx in
    record tx' {
      rec_lock = true;
      rec_suppose_on_chain =
          if c.not_lock_immediately && (tx.rec_suppose_on_chain == 0)
          then block_number
          else tx.rec_suppose_on_chain;
    }

-- A reading of the clock.
abbrev pub tick : TxPool → TxPool
tick pool = record pool { clock = pool.clock + 1 }

module _ (now : ℕ → ℤ) (gob_copy : Transaction2 → Transaction2) (c : ChainConfig)
    (acc : Accounts) where
  park_sender : ℕ → Ref → Transaction2 → Str → TxPool → TxPool
  park_sender block_number v tx from pool =
      let pool' = write_ref (tick pool) v (lock_sender c block_number (now pool.clock) tx) in
      record pool' { locking_tx_pools = append_at pool.locking_tx_pools from (v ∷ []) }

  park_recipient : ℕ → Ref → Transaction2 → Str → TxPool → TxPool
  park_recipient block_number v tx to pool =
      let pool' = write_ref (tick pool) v (lock_recipient c block_number (now pool.clock) tx) in
      record pool' { locking_tx_pools = append_at pool.locking_tx_pools to (v ∷ []) }

  -- With `RelayLock` a copy is parked, and the transaction itself goes on.
  park_copy : ℕ → Transaction2 → Str → TxPool → TxPool
  park_copy block_number tx to pool =
      let decoded = lock_recipient c block_number (now pool.clock) (gob_copy tx) in
      let pool' = write_ref (tick pool) pool.next_ref (record decoded { relay_lock = true }) in
      record pool' {
        next_ref = pool.next_ref + 1;
        locking_tx_pools = append_at pool.locking_tx_pools to (pool.next_ref ∷ []);
      }

  park_outing : ℕ → Ref → Transaction2 → Str → TxPool → TxPool
  park_outing block_number v tx from pool =
      let pool' = write_ref (tick pool) v (lock_sender c block_number (now pool.clock) tx) in
      record pool' {
        outing_before_announce_tx_pools =
            append_at pool.outing_before_announce_tx_pools from (v ∷ []);
      }

  -- The body of the inner loop of `FetchTxs2Pack`, for one recipient. Its `continue` statements go on
  -- with the next recipient, as its end does.
  fetch_recipient : ℕ → Ref → Bytes → TxPool → TxPool
  unfolding park_sender park_recipient park_copy park_outing
  fetch_recipient block_number v recipient pool =
      let tx = pool.store v in
      let from = hex tx.sender in
      let to = hex recipient in
      if (not (acc.account_in_own_shard from) && not tx.is_relay && not tx.relay_lock)
        || (not (acc.account_in_own_shard to) && (tx.is_relay || tx.relay_lock))
      then pool
      else if c.lock_acc_when_migrating
      then (if acc.lock_acc from && not tx.is_relay && not tx.relay_lock
          then park_sender block_number v tx from pool
          else if acc.lock_acc to
          then (if not c.relay_lock
              then park_recipient block_number v tx to pool
              else park_copy block_number tx to pool)
          else pool)
      else if not c.stop_when_migrating
      then (if acc.outing_acc_before_announce from
          then park_outing block_number v tx from pool
          else pool)
      else pool

  fetch_recipients : ℕ → Ref → List Bytes → TxPool → TxPool
  unfolding fetch_recipient
  fetch_recipients block_number v [] pool = pool
  fetch_recipients block_number v (r ∷ rs) pool =
      fetch_recipients block_number v rs (fetch_recipient block_number v r pool)

  -- `tx_cnt--`
  abbrev decrement : ℤ → ℤ
  decrement (pos zero) = negsuc 0
  decrement (pos (suc n)) = pos n
  decrement (negsuc n) = negsuc (suc n)

  abbrev is_zero : ℤ → Bool
  is_zero (pos zero) = true
  is_zero (pos (suc n)) = false
  is_zero (negsuc n) = false

  -- The outer loop over the queue: the packed transactions, `loc + 1`, and the pool.
  fetch_loop : ℕ → ℤ → List Ref → ℕ → TxPool → List Ref × ℕ × TxPool
  unfolding fetch_recipients
  fetch_loop block_number tx_cnt [] loc1 pool = ([], loc1, pool)
  fetch_loop block_number tx_cnt (v ∷ rest) loc1 pool =
      let pool' = fetch_recipients block_number v (pool.store v).recipient pool in
      let r = fetch_loop block_number (decrement tx_cnt) rest (loc1 + 1) pool' in
      if is_zero tx_cnt then ([], loc1, pool) else (v ∷ r.0, r.1, r.2)

  -- The packed transactions, the length of the queue that is left, and the pool. `left_count` is an
  -- `int` that the caller computes by subtraction.
  unfoldable pub fetch_txs2_pack : ℤ → ℕ → TxPool → List Ref × ℕ × TxPool
  unfolding fetch_loop
  fetch_txs2_pack left_count block_number pool =
      let tx_cnt =
        if ltb_ℤ (pos (length pool.queue)) left_count
        then pos (length pool.queue)
        else left_count in
      let (txs, loc1, pool') = fetch_loop block_number tx_cnt pool.queue 0 pool in
      let queue = drop loc1 pool'.queue in (txs, length queue, record pool' { queue = queue })
