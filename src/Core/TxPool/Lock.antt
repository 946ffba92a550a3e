-- ===== src/Core/TxPool/Lock.antt =====
-- core/txpool.go: `LockTX`, which parks the transactions of locked accounts, and `TxPoolDeepCopy`.
use mathlib.Core.List.{append_assoc, append-nil}
use block_preempt.Prelude.{
  ℕ, ◌≡◌, refl, ap, sym, ◌∙◌, true, not, ◌&&◌, ◌||◌, List, [], ◌∷◌, ◌++◌, length, replicate,
  if◌then◌else◌, arith,
}
use block_preempt.Prelude.Int.{ℤ}
use block_preempt.Params.{ChainConfig}
use block_preempt.Account.Hex.{hex, str_eq_refl}
use block_preempt.Trie.Nibbles.{Bytes}
use block_preempt.Core.TxPool.Plain.{IsPlain, ==_refl}
use block_preempt.Core.TxPool.{Ref, TxPool, Accounts, append_at, write_ref, stamp_lock, tick}

module _ (now : ℕ → ℤ) (c : ChainConfig) (acc : Accounts) where
  -- The body of the inner loop, for one recipient.
  lock_tx_recipient : Ref → Bytes → TxPool → TxPool
  lock_tx_recipient v recipient pool =
      let tx = pool.store v in
      let from = hex tx.sender in
      let to = hex recipient in
      let stamped = stamp_lock (now pool.clock) tx in
      let sender_pool = write_ref (tick pool) v (record stamped { sen_lock = true }) in
      let recipient_pool = write_ref (tick pool) v (record stamped { rec_lock = true }) in
      let outing_pool = write_ref (tick pool) v stamped in
      if c.lock_acc_when_migrating
      then (if not tx.is_relay && not tx.relay_lock && acc.lock_acc from
          then record sender_pool {
            locking_tx_pools = append_at pool.locking_tx_pools from (v ∷ []);
          }
          else if acc.lock_acc to && (acc.account_in_own_shard from || tx.is_relay || tx.relay_lock)
          then record recipient_pool {
            locking_tx_pools = append_at pool.locking_tx_pools to (v ∷ []);
          }
          else pool)
      else if not tx.is_relay && not tx.relay_lock && acc.outing_acc_before_announce from
      then record outing_pool {
        outing_before_announce_tx_pools =
            append_at pool.outing_before_announce_tx_pools from (v ∷ []);
      }
      else pool

  lock_tx_recipients : Ref → List Bytes → TxPool → TxPool
  unfolding lock_tx_recipient
  lock_tx_recipients v [] pool = pool
  lock_tx_recipients v (r ∷ rs) pool = lock_tx_recipients v rs (lock_tx_recipient v r pool)

  -- The loop over the queue: the entries that `Queue[j] = tx` keeps, and the pool.
  lock_tx_loop : List Ref → TxPool → List Ref × TxPool
  unfolding lock_tx_recipients
  lock_tx_loop [] pool = ([], pool)
  lock_tx_loop (v ∷ rest) pool =
      let pool' = lock_tx_recipients v (pool.store v).recipient pool in
      let (kept, pool'') = lock_tx_loop rest pool' in (v ∷ kept, pool'')

  unfoldable pub lock_tx : TxPool → TxPool
  unfolding lock_tx_loop
  lock_tx pool = let (kept, pool') = lock_tx_loop pool.queue pool in record pool' { queue = kept }

  lock_tx_loop-kept : (q : List Ref) (pool : TxPool) → (lock_tx_loop q pool).0 ≡ q
  unfolding lock_tx_loop
  lock_tx_loop-kept [] pool = refl
  lock_tx_loop-kept (v ∷ q) pool =
      ap (λ l. v ∷ l) (lock_tx_loop-kept q (lock_tx_recipients v (pool.store v).recipient pool))

  -- No transaction leaves the queue, and none moves in it, whatever the configuration and the locks are.
  pub lock_tx-queue : (pool : TxPool) → (lock_tx pool).queue ≡ pool.queue
  unfolding lock_tx
  lock_tx-queue pool = lock_tx_loop-kept pool.queue pool

  lock_tx_recipient-locked :
      (v : Ref) (r : Bytes) (pool : TxPool) (sender : Bytes)
      → IsPlain sender (pool.store v)
      → c.lock_acc_when_migrating ≡ true
      → acc.lock_acc (hex sender) ≡ true
      → let pool' = lock_tx_recipient v r pool in
        IsPlain sender (pool'.store v)
        × (pool'.locking_tx_pools (hex sender) ≡ pool.locking_tx_pools (hex sender) ++ v ∷ [])
  unfolding lock_tx_recipient
  lock_tx_recipient-locked v r pool sender (e₁, e₂, e₃) hc hl =
      rw e₁ (
        rw e₂ (rw e₃ (rw hc (rw hl (rw (==_refl v) (rw (str_eq_refl (hex sender)) ground arith))))))

  lock_tx_recipients-locked :
      (v : Ref) (rs : List Bytes) (pool : TxPool) (sender : Bytes)
      → IsPlain sender (pool.store v)
      → c.lock_acc_when_migrating ≡ true
      → acc.lock_acc (hex sender) ≡ true
      → (lock_tx_recipients v rs pool).locking_tx_pools (hex sender)
        ≡ pool.locking_tx_pools (hex sender) ++ replicate (length rs) v
  unfolding lock_tx_recipients
  lock_tx_recipients-locked v [] pool sender h hc hl =
      sym (append-nil (pool.locking_tx_pools (hex sender)))
  lock_tx_recipients-locked v (r ∷ rs) pool sender h hc hl =
      let (plain, e) = lock_tx_recipient-locked v r pool sender h hc hl in
      lock_tx_recipients-locked v rs (lock_tx_recipient v r pool) sender plain hc hl
      ∙ ap (λ l. l ++ replicate (length rs) v) e
      ∙ append_assoc (pool.locking_tx_pools (hex sender)) (v ∷ []) (replicate (length rs) v)

  -- With `Lock_Acc_When_Migrating` and a queue of one transaction that is no relay and has a locked
  -- sender, `LockTX` parks the transaction once for each of its recipients, and leaves it in the queue.
  pub lock_tx_parks :
      (v : Ref) (sender : Bytes) (pool : TxPool)
      → pool.queue ≡ v ∷ []
      → IsPlain sender (pool.store v)
      → c.lock_acc_when_migrating ≡ true
      → acc.lock_acc (hex sender) ≡ true
      → ((lock_tx pool).queue ≡ v ∷ [])
        × ((lock_tx pool).locking_tx_pools (hex sender)
            ≡ pool.locking_tx_pools (hex sender) ++ replicate (length (pool.store v).recipient) v)
  unfolding lock_tx lock_tx_loop
  lock_tx_parks v sender pool hq h hc hl =
      let parked = lock_tx_recipients-locked v (pool.store v).recipient pool sender h hc hl in
      (lock_tx-queue pool ∙ hq, rw hq (rw hq at parked))
