-- ===== src/Chain/Update.antt =====
-- chain/blockchain.go, `getUpdatedTreeOfState`: a block applied to the state. The steps run in the order
-- of the source; `none` is a panic. What is written to the disk and to the log is not modelled. `own` is
-- `params.ShardTable[bc.ChainConfig.ShardID]`.
use block_preempt.Prelude.{◌+◌, Option, none, some, List, [], ◌∷◌, ◌++◌, if◌then◌else◌, ◌>>=◌}
use block_preempt.Prelude.Int.{ℤ, pos, negsuc, ◌+ℤ◌, ltb_ℤ}
use block_preempt.Params.{ChainConfig}
use block_preempt.Trie.Nibbles.{Bytes}
use block_preempt.Account.Hex.{Str, decode_string}
use block_preempt.Account.State.{AccountState}
use block_preempt.Account.Credit.{CreditLines, bank_account_addr, set_bank_credit_line}
use block_preempt.Core.Migration.{TxMig1, TxMig2}
use block_preempt.Core.Transaction.{Transaction2, transaction2}
use block_preempt.Core.TxPool.{Ref, TxPool, delete_at, write_ref}
use block_preempt.Core.TxPool.Bank.{add_bank_agg_txs, get_bank_agg_txs}
use block_preempt.Chain.StateDb.{StateDb, read, write}

-- `tx.Value[i]`, which panics where there are fewer values than recipients, and the values behind it.
abbrev pub first_of : List ℤ → Option ℤ
first_of [] = none
first_of (x ∷ xs) = some x

abbrev pub rest_of : List ℤ → List ℤ
rest_of [] = []
rest_of (x ∷ xs) = xs

module _ (db : StateDb) (c : ChainConfig) (own : ℤ) where
  -- What the update reads and writes.
  pub record World : Type 0 where
    pub st : db.S
    pub pool : TxPool
    pub credit : CreditLines
    pub outbalance : Str → Option ℤ

  abbrev pub credit_account : ℤ → AccountState → AccountState
  credit_account amount a = record a { balance = a.balance +ℤ amount }

  -- The bank pays one recipient; an address that the state does not have is passed over.
  abbrev pub pay_recipient : Bytes → Option ℤ → Option AccountState → db.S → Option db.S
  pay_recipient r value none st = some st
  pay_recipient r value (some a) st =
      value >>= λ amount. some (write db st r (credit_account amount a))

  unfoldable pub pay_recipients : List Bytes → List ℤ → db.S → Option db.S
  pay_recipients [] values st = some st
  pay_recipients (r ∷ rs) values st = do
    st' ← pay_recipient r (first_of values) (read db st r) st
    pay_recipients rs (rest_of values) st'

  unfoldable pub pay_bank_txs : (Ref → Transaction2) → List Ref → db.S → Option db.S
  unfolding pay_recipients
  pay_bank_txs store [] st = some st
  pay_bank_txs store (v ∷ rest) st = do
    st' ← pay_recipients (store v).recipient (store v).value st
    pay_bank_txs store rest st'

  -- What is written back for an account that moves in; the state was read before the bank paid.
  abbrev pub settled : TxMig2 → AccountState → AccountState
  settled v a = record a { balance = v.value; migrate = negsuc 0; location = own }

  unfoldable pub settle_mig2 : TxMig2 → World → Option World
  unfolding pay_bank_txs
  settle_mig2 v w =
      let key = decode_string v.address in
      let (bank_txs, pool') = get_bank_agg_txs v.address w.pool in
      read db w.st key >>= λ a.
      if c.enable_bank
      then (pay_bank_txs w.pool.store bank_txs w.st >>= λ st'.
          some (record w { st = write db st' key (settled v a); pool = pool' }))
      else some (record w { st = write db w.st key (settled v a) })

  -- The payments of the pending transactions, one after the other.
  collect_tx : List Bytes → List ℤ → Option (List Bytes × List ℤ)
  collect_tx [] values = some ([], [])
  collect_tx (r ∷ rs) [] = none
  collect_tx (r ∷ rs) (v ∷ values) = collect_tx rs values >>= λ p. some (r ∷ p.0, v ∷ p.1)

  collect : (Ref → Transaction2) → List Ref → Option (List Bytes × List ℤ)
  unfolding collect_tx
  collect store [] = some ([], [])
  collect store (v ∷ rest) = do
    p ← collect_tx (store v).recipient (store v).value
    q ← collect store rest
    some (p.0 ++ q.0, p.1 ++ q.1)

  unfoldable pub aggregate : Str → List Ref → TxPool → Option TxPool
  unfolding collect
  aggregate addr [] pool = some pool
  aggregate addr (v ∷ pending) pool = collect pool.store (v ∷ pending) >>= λ p.
      let agg = transaction2 bank_account_addr p.0 p.1 in
      let pool' = record (write_ref pool pool.next_ref agg) { next_ref = pool.next_ref + 1 } in
      some (add_bank_agg_txs addr (pool.next_ref ∷ []) pool')

  -- The pending transactions of an account, which leave their pool.
  abbrev pub take_pending : Str → TxPool → List Ref × TxPool
  take_pending addr pool =
      if c.lock_acc_when_migrating
      then (
        pool.locking_tx_pools addr,
        record pool { locking_tx_pools = delete_at pool.locking_tx_pools addr },
      )
      else (
        pool.outing_before_announce_tx_pools addr,
        record pool {
          outing_before_announce_tx_pools = delete_at pool.outing_before_announce_tx_pools addr;
        },
      )

  abbrev pub mortgage_balance : TxMig1 → AccountState → World → Option World
  mortgage_balance v a w =
      let (pending, pool') = take_pending v.address w.pool in
      if ltb_ℤ (pos 0) a.balance
      then (aggregate v.address pending pool' >>= λ pool''.
          some (record w {
            pool = pool'';
            credit = set_bank_credit_line v.address a.balance w.credit;
          }))
      else some w

  abbrev pub mortgage_found : TxMig1 → Option AccountState → World → Option World
  mortgage_found v none w = some w
  mortgage_found v (some a) w = mortgage_balance v a w

  unfoldable pub mortgage : TxMig1 → World → Option World
  mortgage v w = mortgage_found v (read db w.st (decode_string v.address)) w
