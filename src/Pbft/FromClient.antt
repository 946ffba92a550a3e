-- ===== src/Pbft/FromClient.antt =====
-- pbft/hanleTxFromClient.go and pbft/pbft.go: `handleTxFromClient` and `TrySendTX`, which take the
-- transactions of a client. The transactions of the message are objects of `store`; `txs` is the slice
-- `Txs`, which the loop writes to while it reads it.
pub mod Once
pub mod Overrun
pub mod Sends
pub mod Examples
use block_preempt.Prelude.{
  ℕ, zero, suc, Bool, true, false, not, ◌&&◌, Option, none, some, List, [], ◌∷◌, ◌++◌, length,
  get_elem?, get_or, set, take, replicate, ltb, if◌then◌else◌, ◌>>=◌,
}
use block_preempt.Prelude.Int.{ℤ, pos, negsuc}
use block_preempt.Params.{ChainConfig}
use block_preempt.Trie.Nibbles.{Bytes}
use block_preempt.Account.Hex.{Str, hex}
use block_preempt.Account.Shards.{eq_ℤ}
use block_preempt.Core.Transaction.{Transaction2}
use block_preempt.Core.TxPool.{Ref, TxPool, Accounts, append_at, write_ref, tick}

-- `account.Account2Shard[addr]`: a missing key reads as zero.
abbrev pub shard_or_zero : Option ℤ → ℤ
shard_or_zero none = pos 0
shard_or_zero (some shard) = shard

-- `sendpool[shardID] = append(sendpool[shardID], v)`, which panics out of range.
abbrev pub append_send : ℤ → Ref → List (List Ref) → Option (List (List Ref))
append_send (pos n) v pool = get_elem? pool n >>= λ xs. some (set pool n (xs ++ v ∷ []))
append_send (negsuc n) v pool = none

abbrev pub sender_shard : (Str → Option ℤ) → Transaction2 → ℤ
sender_shard account2shard tx = shard_or_zero (account2shard (hex tx.sender))

module _ (c : ChainConfig) (own : ℤ) (account2shard : Str → Option ℤ) where
  unfoldable pub send_loop :
      (Ref → Transaction2) → List Ref → List (List Ref) → Option (List (List Ref))
  send_loop store [] pool = some pool
  send_loop store (v ∷ vs) pool =
      append_send (sender_shard account2shard (store v)) v pool >>= λ pool'.
      send_loop store vs pool'

  -- What each shard is sent; an empty list is not sent, and nothing to the own shard.
  unfoldable pub try_send_tx : (Ref → Transaction2) → List Ref → Option (ℕ → List Ref)
  unfolding send_loop
  try_send_tx store txs = send_loop store txs (replicate c.shard_num []) >>= λ pool.
      some (λ k. if eq_ℤ (pos k) own then [] else get_or pool k [])

-- What the loops carry: the pool, the slice `Txs`, `j` and `tx2`.
pub record Receiving : Type 0 where
  pub pool : TxPool
  pub txs : List Ref
  pub j : ℕ
  pub tx2 : List Ref

-- `Txs[j] = tx; j++`, which panics behind the end.
abbrev pub write_tx : Ref → Receiving → Option Receiving
write_tx v s =
    if ltb s.j (length s.txs) then some (record s { txs = set s.txs s.j v; j = suc s.j }) else none

abbrev pub forward : Ref → Receiving → Receiving
forward v s = record s { tx2 = s.tx2 ++ v ∷ [] }

abbrev pub full_lock : ChainConfig → Bool
full_lock c = not c.stop_when_migrating && c.lock_acc_when_migrating

abbrev pub half_lock_on : ChainConfig → Bool
half_lock_on c = not c.stop_when_migrating && not c.lock_acc_when_migrating

abbrev pub park_for : Str → Ref → Transaction2 → Receiving → Receiving
park_for addr v tx s =
    let p = write_ref (tick s.pool) v tx in
    record s { pool = record p { locking_tx_pools = append_at p.locking_tx_pools addr (v ∷ []) } }

abbrev pub park_half : Str → Ref → Transaction2 → Receiving → Receiving
park_half addr v tx s =
    let p = write_ref (tick s.pool) v tx in
    record s {
      pool = record p {
        outing_before_announce_tx_pools = append_at p.outing_before_announce_tx_pools addr (v ∷ []);
      };
    }

abbrev pub in_own : ℤ → (Str → Option ℤ) → Transaction2 → Bool
in_own own account2shard tx = eq_ℤ (sender_shard account2shard tx) own

module _ (now : ℕ → ℤ) (c : ChainConfig) (own : ℤ) (account2shard : Str → Option ℤ)
    (acc : Accounts) where
  -- The body of the inner loop, for one recipient; a `continue` goes on with the next one.
  unfoldable pub client_recipient : Ref → Bytes → Receiving → Option Receiving
  client_recipient v r s =
      let tx = s.pool.store v in
      let from = hex tx.sender in
      let to = hex r in
      let t = now s.pool.clock in
      if not (in_own own account2shard tx)
      then some (forward v s)
      else if full_lock c && acc.lock_acc from
      then some (park_for from v (record tx { lock_time = t; sen_lock = true }) s)
      else if full_lock c && acc.lock_acc to
      then some (park_for to v (record tx { lock_time = t; rec_lock = true }) s)
      else if half_lock_on c && acc.outing_acc_before_announce from
      then some (park_half from v (record tx { lock_time = t }) s)
      else write_tx v s

  unfoldable pub client_recipients : Ref → List Bytes → Receiving → Option Receiving
  unfolding client_recipient
  client_recipients v [] s = some s
  client_recipients v (r ∷ rs) s = client_recipient v r s >>= λ s'. client_recipients v rs s'

  -- The body of the loop with `Not_Lock_immediately`.
  unfoldable pub client_tx : Ref → Receiving → Option Receiving
  client_tx v s =
      if in_own own account2shard (s.pool.store v) then write_tx v s else some (forward v s)

  -- `k` transactions are left to read, from index `i` on.
  unfoldable pub client_loop : ℕ → ℕ → Receiving → Option Receiving
  unfolding client_recipients client_tx
  client_loop zero i s = some s
  client_loop (suc k) i s = get_elem? s.txs i >>= λ v.
      (if c.not_lock_immediately
        then client_tx v s
        else client_recipients v (s.pool.store v).recipient s)
      >>= λ s'. client_loop k (suc i) s'

  -- The pool, and what each other shard is sent.
  unfoldable pub handle_tx_from_client : List Ref → TxPool → Option (TxPool × (ℕ → List Ref))
  unfolding client_loop try_send_tx
  handle_tx_from_client txs pool =
      client_loop (length txs) 0 (record { pool = pool; txs = txs; j = 0; tx2 = [] }) >>= λ s.
      try_send_tx c own account2shard s.pool.store s.tx2 >>= λ sent.
      (let p = s.pool in some (record p { queue = p.queue ++ take s.j s.txs }, sent))
