-- ===== src/Pbft/Relay.antt =====
-- pbft/pbft.go: `TryRelay`, `TryRelay2` and `handleRelay`, which carry a transaction to the shards of
-- its recipients. Merkle proofs are those of go-ethereum, whose tries stand in memory, so that `Prove` does
-- not fail; `state` reads an account of the state trie, which panics where the trie has none. A message is
-- a copy of what it carries.
pub mod Copies
pub mod Returns
pub mod Examples
use block_preempt.Prelude.{
  ℕ, zero, suc, ◌+◌, Bool, true, false, not, ◌&&◌, Option, none, some, List, [], ◌∷◌, ◌++◌,
  get_elem?, get_or, set, replicate, if◌then◌else◌, ◌>>=◌,
}
use block_preempt.Prelude.Int.{ℤ, pos, negsuc}
use block_preempt.Params.{ChainConfig}
use block_preempt.Trie.Nibbles.{Bytes}
use block_preempt.Account.Hex.{Str, hex}
use block_preempt.Account.State.{AccountState}
use block_preempt.Account.Shards.{Shards, addr2shard, eq_ℤ}
use block_preempt.Core.Transaction.{Transaction2}
use block_preempt.Core.TxPool.{
  Ref, TxPool, Accounts, append_at, write_ref, tick, stamp_lock, add_txs,
}

-- Both proofs stand in `proofs`; `state` is the recipient's in the sender's shard.
pub record TxRelay (Proofs : Type 0) : Type 0 where
  pub txcs : Transaction2
  pub proofs : Proofs
  pub state : AccountState

abbrev pub RelayPool : Type 0 → Type 0
RelayPool Proofs = List (List (TxRelay Proofs))

module _ {Proofs : Type 0} where
  -- `relaypool[shardID] = append(relaypool[shardID], x)`, which panics out of range.
  abbrev pub append_pool : ℤ → TxRelay Proofs → RelayPool Proofs → Option (RelayPool Proofs)
  append_pool (pos n) x pool = get_elem? pool n >>= λ xs. some (set pool n (xs ++ x ∷ []))
  append_pool (negsuc n) x pool = none

module _ (c : ChainConfig) (own : ℤ) {Proofs : Type 0} where
  -- The loop over the recipients, with what is appended for each, or a panic.
  unfoldable pub relay_recipients :
      (Bytes → Option (TxRelay Proofs))
      → List Bytes
      → Shards
      → RelayPool Proofs
      → Option (Shards × RelayPool Proofs)
  relay_recipients copy [] t pool = some (t, pool)
  relay_recipients copy (r ∷ rs) t pool = addr2shard c own (hex r) t >>= λ a.
      copy r >>= λ x. append_pool a.0 x pool >>= λ pool'. relay_recipients copy rs a.1 pool'

  -- `&core.TXrelay{…}` for one recipient.
  abbrev pub make_relay :
      (Transaction2 → Bytes → Proofs)
      → (Bytes → Option AccountState)
      → Transaction2
      → Bytes
      → Option (TxRelay Proofs)
  make_relay prove state v r =
      state r >>= λ a. some (record { txcs = v; proofs = prove v r; state = a })

  unfoldable pub relay_txs :
      (Transaction2 → Bytes → Proofs)
      → (Bytes → Option AccountState)
      → List Transaction2
      → Shards
      → RelayPool Proofs
      → Option (Shards × RelayPool Proofs)
  unfolding relay_recipients
  relay_txs prove state [] t pool = some (t, pool)
  relay_txs prove state (v ∷ vs) t pool =
      relay_recipients (make_relay prove state v) v.recipient t pool >>= λ a.
      relay_txs prove state vs a.0 a.1

  unfoldable pub relay_again :
      List (TxRelay Proofs) → Shards → RelayPool Proofs → Option (Shards × RelayPool Proofs)
  unfolding relay_recipients
  relay_again [] t pool = some (t, pool)
  relay_again (v ∷ vs) t pool =
      relay_recipients (λ r. some v) v.txcs.recipient t pool >>= λ a. relay_again vs a.0 a.1

  -- What shard `k` is sent: nothing for the own shard; an empty list is not sent.
  abbrev pub message_for : RelayPool Proofs → ℕ → List (TxRelay Proofs)
  message_for pool k = if eq_ℤ (pos k) own then [] else get_or pool k []

  -- The messages by shard, and the table of shards after the calls.
  unfoldable pub try_relay :
      (Transaction2 → Bytes → Proofs)
      → (Bytes → Option AccountState)
      → List Transaction2
      → Shards
      → Option (Shards × (ℕ → List (TxRelay Proofs)))
  unfolding relay_txs
  try_relay prove state txs t =
      relay_txs prove state txs t (replicate c.shard_num []) >>= λ a. some (a.0, message_for a.1)

  unfoldable pub try_relay2 :
      List (TxRelay Proofs) → Shards → Option (Shards × (ℕ → List (TxRelay Proofs)))
  unfolding relay_again
  try_relay2 txs t =
      relay_again txs t (replicate c.shard_num []) >>= λ a. some (a.0, message_for a.1)

-- A transaction that comes in a message is a new object.
abbrev pub fresh_ref : TxPool → Transaction2 → TxPool
fresh_ref pool tx =
    let p = write_ref pool pool.next_ref tx in record p { next_ref = pool.next_ref + 1 }

-- What the loop of `handleRelay` carries: the pool, the table, `txcss` and `relaytx2`.
pub record Relaying (Proofs : Type 0) : Type 0 where
  pub pool : TxPool
  pub shards : Shards
  pub txcss : List Ref
  pub relaytx2 : List (TxRelay Proofs)

module _ (now : ℕ → ℤ) (c : ChainConfig) (own : ℤ) (acc : Accounts) {Proofs : Type 0} where
  -- The recipient is locked: the transaction waits for it.
  abbrev pub lock_relay : TxRelay Proofs → Str → Relaying Proofs → Relaying Proofs
  lock_relay x to s =
      let tx = stamp_lock (now s.pool.clock) x.txcs in
      let p = tick (
        tick (
          fresh_ref s.pool
            (record tx { rec_lock = true; second_request_time = now (s.pool.clock + 1) }))) in
      record s {
        pool = record p {
          locking_tx_pools = append_at s.pool.locking_tx_pools to (s.pool.next_ref ∷ []);
        };
      }

  abbrev pub take_relay : TxRelay Proofs → Relaying Proofs → Relaying Proofs
  take_relay x s =
      let tx = x.txcs in
      record s {
        pool = tick (fresh_ref s.pool (record tx { second_request_time = now s.pool.clock }));
        txcss = s.txcss ++ s.pool.next_ref ∷ [];
      }

  abbrev pub pass_relay : TxRelay Proofs → Relaying Proofs → Relaying Proofs
  pass_relay x s = record s { relaytx2 = s.relaytx2 ++ x ∷ [] }

  -- Each branch of the loop over the recipients ends it, so that only the first one is looked at.
  unfoldable pub place_relay :
      TxRelay Proofs → List Bytes → Relaying Proofs → Option (Relaying Proofs)
  place_relay x [] s = some s
  place_relay x (r ∷ rs) s = addr2shard c own (hex r) s.shards >>= λ a.
      (let s' : Relaying Proofs = record s { shards = a.1 } in
        if not c.not_lock_immediately && acc.lock_acc (hex r)
        then some (lock_relay x (hex r) s')
        else if eq_ℤ a.0 own
        then some (take_relay x s')
        else some (pass_relay x s'))

  unfoldable pub place_relays : List (TxRelay Proofs) → Relaying Proofs → Option (Relaying Proofs)
  unfolding place_relay
  place_relays [] s = some s
  place_relays (x ∷ xs) s = place_relay x x.txcs.recipient s >>= λ s'. place_relays xs s'

  -- The pool, the table, and what goes on to other shards.
  unfoldable pub handle_relay :
      List (TxRelay Proofs)
      → TxPool
      → Shards
      → Option (TxPool × (Shards × (ℕ → List (TxRelay Proofs))))
  unfolding place_relays try_relay2 add_txs
  handle_relay txs pool t =
      place_relays txs (record { pool = pool; shards = t; txcss = []; relaytx2 = [] }) >>= λ s.
      try_relay2 c own s.relaytx2 s.shards >>= λ m. some (add_txs s.pool s.txcss, m)
