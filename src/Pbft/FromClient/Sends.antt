-- ===== src/Pbft/FromClient/Sends.antt =====
-- `TrySendTX`: what each other shard is sent.
use mathlib.Core.List.{append-nil}
use block_preempt.Prelude.{
  ℕ, ◌<◌, ◌≡◌, refl, sym, ap, ◌∙◌, Option, some, List, [], ◌∷◌, ◌++◌, length, get_or, set,
  replicate, length-set, length-replicate, get_elem?-get_or, get_or-replicate, get_or-push, ◌==◌,
  if◌then◌else◌, not,
}
use block_preempt.Prelude.Int.{ℤ, pos}
use block_preempt.Params.{ChainConfig}
use block_preempt.Account.Hex.{Str}
use block_preempt.Account.Shards.{eq_ℤ}
use block_preempt.Core.Transaction.{Transaction2}
use block_preempt.Core.TxPool.{Ref, TxPool, Accounts}
use block_preempt.Pbft.FromClient.{
  sender_shard, in_own, send_loop, try_send_tx, handle_tx_from_client,
}
use block_preempt.Pbft.FromClient.Once.{Unlocked, AllOnce, those, handle_tx_from_client-once}

module _ (c : ChainConfig) (own : ℤ) (account2shard : Str → Option ℤ) (store : Ref → Transaction2)
    (shard : Ref → ℕ) where
  -- The senders of the transactions are in the shards that `shard` gives, among the first `n`.
  abbrev pub SenderShards : ℕ → List Ref → Type 0
  SenderShards n [] = Unit
  SenderShards n (v ∷ vs) =
      ((sender_shard account2shard (store v) ≡ pos (shard v)) × (shard v < n)) × SenderShards n vs

  send_loop-shards :
      (vs : List Ref) (pool : List (List Ref))
      → SenderShards (length pool) vs
      → (pool' : List (List Ref)) × (send_loop c own account2shard store vs pool ≡ some pool')
        × ((k : ℕ) → get_or pool' k [] ≡ get_or pool k [] ++ those (λ v. shard v == k) vs)
  unfolding send_loop
  send_loop-shards [] pool h = (pool, refl, λ k. sym (append-nil (get_or pool k [])))
  send_loop-shards (v ∷ vs) pool ((e, small), more) =
      let grown = get_or pool (shard v) [] ++ v ∷ [] in
      let next = set pool (shard v) grown in
      let (pool', e', each) =
        send_loop-shards vs next (rw (length-set pool (shard v) grown) more) in
      (
        pool',
        rw e (rw (get_elem?-get_or pool (shard v) small) e'),
        λ k. each k ∙ get_or-push pool (shard v) k v (those (λ q. shard q == k) vs) small,
      )

  -- Where every sender has its shard: TrySendTX does not panic, and each other shard is sent exactly the
  -- transactions whose sender it has, in order; the own shard is sent none.
  pub try_send_tx-shards :
      (vs : List Ref)
      → SenderShards c.shard_num vs
      → (sent : ℕ → List Ref) × (try_send_tx c own account2shard store vs ≡ some sent)
        × ((k : ℕ) → sent k ≡ (if eq_ℤ (pos k) own then [] else those (λ v. shard v == k) vs))
  unfolding try_send_tx
  try_send_tx-shards vs h =
      let (pool, e, each) =
        send_loop-shards vs (replicate c.shard_num [])
          (rw (length-replicate {A = List Ref} c.shard_num []) h) in
      (
        λ k. if eq_ℤ (pos k) own then [] else get_or pool k [],
        rw e refl,
        λ k.
            ap (λ l. if eq_ℤ (pos k) own then [] else l)
              (each k
                ∙ ap (λ l. l ++ those (λ v. shard v == k) vs) (get_or-replicate c.shard_num k)),
      )

-- Where no account is locked, each transaction of the message has one recipient and every sender has its
-- shard: no panic; the transactions of the own shard's senders go to the end of the queue, and each
-- other shard is sent those of the rest whose sender it has, all in the order of the message.
pub handle_tx_from_client-sends :
    (now : ℕ → ℤ) (c : ChainConfig) (own : ℤ) (account2shard : Str → Option ℤ) (acc : Accounts)
    → Unlocked acc
    → (txs : List Ref) (pool : TxPool) → AllOnce pool.store txs
    → (shard : Ref → ℕ)
    → SenderShards c own account2shard pool.store shard c.shard_num
        (those (λ v. not (in_own own account2shard (pool.store v))) txs)
    → (sent : ℕ → List Ref) × (handle_tx_from_client now c own account2shard acc txs pool
        ≡ some (
          record pool {
            queue = pool.queue ++ those (λ v. in_own own account2shard (pool.store v)) txs;
          },
          sent,
        ))
      × ((k : ℕ)
          → sent k ≡ (
              if eq_ℤ (pos k) own
              then []
              else those
                  (λ v. shard v == k)
                  (those (λ v. not (in_own own account2shard (pool.store v))) txs)))
handle_tx_from_client-sends now c own account2shard acc free txs pool once shard h =
    let others = those (λ v. not (in_own own account2shard (pool.store v))) txs in
    let (sent, e, each) = try_send_tx-shards c own account2shard pool.store shard others h in
    (
      sent,
      handle_tx_from_client-once now c own account2shard acc free txs pool once ∙ rw e refl,
      each,
    )
