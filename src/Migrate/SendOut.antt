-- ===== src/Migrate/SendOut.antt =====
-- pbft/PBFTforMigrate.go: `SendOut`, which collects what goes to the new shards when the chain stops for
-- a change of the epoch. `out` maps the addresses that leave to their shards.
pub mod Sent
use block_preempt.Prelude.{
  ℕ, Bool, true, false, not, Option, none, some, List, [], ◌∷◌, ◌++◌, get_elem?, set, replicate,
  if◌then◌else◌, ◌>>=◌,
}
use block_preempt.Prelude.Int.{ℤ, pos}
use block_preempt.Params.{ChainConfig}
use block_preempt.Trie.Nibbles.{Bytes}
use block_preempt.Account.Hex.{Str, hex}
use block_preempt.Account.State.{AccountState}
use block_preempt.Account.Table.{lookup, insert, has}
use block_preempt.Core.Transaction.{Transaction2}
use block_preempt.Core.TxPool.{Ref}

pub record BalanceAndPending : Type 0 where
  pub balance : ℤ
  pub pending_txs : List Ref

-- `outpool`: an entry is nil as long as it has no account.
abbrev pub OutPool : Type 0
OutPool = List (List (Str × BalanceAndPending))

-- An account comes with its balance when its first transaction is found, or with zero at the end.
abbrev pub with_tx : Option AccountState → Ref → Option BalanceAndPending → Option BalanceAndPending
with_tx state v (some b) = some (record b { pending_txs = b.pending_txs ++ v ∷ [] })
with_tx none v none = none
with_tx (some a) v none = some (record { balance = a.balance; pending_txs = v ∷ [] })

module _ (store : Ref → Transaction2) (state : Bytes → Option AccountState)
    (out : List (Str × ℕ)) where
  abbrev pub collect_out : ℕ → Bytes → Ref → OutPool → Option OutPool
  collect_out shard addr v pool = get_elem? pool shard >>= λ list.
      with_tx (state addr) v (lookup list (hex addr)) >>= λ b.
      some (set pool shard (insert list (hex addr) b))

  abbrev pub collect_if : Bool → Option ℕ → Bytes → Ref → OutPool → Option OutPool → Option OutPool
  collect_if b none addr v pool rest = rest
  collect_if false (some shard) addr v pool rest = rest
  collect_if true (some shard) addr v pool rest = collect_out shard addr v pool

  -- The body of the inner loop: its `continue` goes on with the next recipient.
  unfoldable pub out_recipient : Ref → Bytes → OutPool → Option OutPool
  out_recipient v r pool =
      let tx = store v in
      collect_if (not tx.is_relay) (lookup out (hex tx.sender)) tx.sender v pool
        (collect_if tx.is_relay (lookup out (hex r)) r v pool (some pool))

  unfoldable pub out_recipients : Ref → List Bytes → OutPool → Option OutPool
  unfolding out_recipient
  out_recipients v [] pool = some pool
  out_recipients v (r ∷ rs) pool = out_recipient v r pool >>= λ pool'. out_recipients v rs pool'

  -- The entries that `Queue[j] = tx; j++` keeps, and `outpool`.
  unfoldable pub out_loop : List Ref → OutPool → Option (List Ref × OutPool)
  unfolding out_recipients
  out_loop [] pool = some ([], pool)
  out_loop (v ∷ queue) pool = out_recipients v (store v).recipient pool >>= λ pool'.
      out_loop queue pool' >>= λ r. some (v ∷ r.0, r.1)

-- The accounts that no transaction brought in.
unfoldable pub out_others : List (Str × ℕ) → OutPool → Option OutPool
out_others [] pool = some pool
out_others ((addr, shard) ∷ rest) pool = get_elem? pool shard >>= λ list.
    (let list' =
        if has list addr
        then list
        else insert list addr (record { balance = pos 0; pending_txs = [] }) in
      out_others rest (set pool shard list'))

-- The queue afterwards, and what each shard is sent.
unfoldable pub send_out :
    ChainConfig
    → (Ref → Transaction2)
    → (Bytes → Option AccountState)
    → List (Str × ℕ)
    → List Ref
    → Option (List Ref × OutPool)
unfolding out_loop out_others
send_out c store state out queue =
    out_loop store state out queue (replicate c.shard_num []) >>= λ r.
    out_others out r.1 >>= λ pool. some (r.0, pool)
