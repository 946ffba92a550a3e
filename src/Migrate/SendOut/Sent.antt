-- ===== src/Migrate/SendOut/Sent.antt =====
-- What `SendOut` sends for each account that leaves.
use block_preempt.Prelude.{
  ℕ, ◌<◌, ◌≡◌, Option, none, some, List, [], ◌∷◌, ◌++◌, length, get_or, if◌then◌else◌,
}
use block_preempt.Prelude.Int.{pos}
use block_preempt.Trie.Nibbles.{Bytes}
use block_preempt.Account.Hex.{Str, hex, str_eq}
use block_preempt.Account.State.{AccountState}
use block_preempt.Account.Table.{lookup, insert, has}
use block_preempt.Core.Transaction.{Transaction2}
use block_preempt.Core.TxPool.{Ref}
use block_preempt.Migrate.SendOut.{BalanceAndPending, OutPool}

abbrev txs_of : Option BalanceAndPending → List Ref
txs_of none = []
txs_of (some b) = b.pending_txs

-- What shard `s` is sent for the account `a`.
abbrev pub sent_for : OutPool → ℕ → Str → List Ref
sent_for pool s a = txs_of (lookup (get_or pool s []) a)

-- Once more for each recipient with which the transaction goes along with the account: for the first half
-- that is the sender's account, and for the second half the recipient's.
abbrev pub copies_for : Transaction2 → Ref → List Bytes → Str → List Ref
copies_for tx v [] a = []
copies_for tx v (r ∷ rs) a =
    let rest = copies_for tx v rs a in
    if str_eq (if tx.is_relay then hex r else hex tx.sender) a then v ∷ rest else rest

abbrev pub taken_for : (Ref → Transaction2) → List Ref → Str → List Ref
taken_for store [] a = []
taken_for store (v ∷ queue) a =
    copies_for (store v) v (store v).recipient a ++ taken_for store queue a

module _ (out : List (Str × ℕ)) (n : ℕ) where
  -- The accounts that leave are given `more`.
  abbrev Gives : OutPool → (Str → List Ref) → OutPool → Type 0
  Gives pool more pool' =
      (length pool' ≡ n)
      × ((a : Str) (s : ℕ)
          → lookup out a ≡ some s
          → sent_for pool' s a ≡ sent_for pool s a ++ more a)

  module _ (store : Ref → Transaction2) (state : Bytes → Option AccountState) where
    -- The target shards are among the first `n`, and the accounts that leave are in the state.
    abbrev pub AllHere : Type 0
    AllHere =
        (addr : Bytes) (shard : ℕ)
        → lookup out (hex addr) ≡ some shard
        → (shard < n) × ((a : AccountState) × (state addr ≡ some a))

    abbrev Returns : OutPool → (Str → List Ref) → Option OutPool → Type 0
    Returns pool more o = (pool' : OutPool) × (o ≡ some pool') × Gives pool more pool'

    -- `v` for the account `key`, and nothing for the others.
    abbrev one_for : Ref → Str → Str → List Ref
    one_for v key a = if str_eq key a then v ∷ [] else []

abbrev pub AllWithin : ℕ → List (Str × ℕ) → Type 0
AllWithin n [] = Unit
AllWithin n ((addr, shard) ∷ rest) = (shard < n) × AllWithin n rest

-- An account that is there, or that is entered without transactions.
abbrev entered : List (Str × BalanceAndPending) → Str → List (Str × BalanceAndPending)
entered list addr =
    if has list addr then list else insert list addr (record { balance = pos 0; pending_txs = [] })
