-- ===== src/Chain/Execute/Relay.antt =====
-- A payment across shards: the sender's half in one shard, and the recipient's half in the other.
use block_preempt.Prelude.{◌≡◌, ◌∙◌, ◌≢◌, Bool, true, false, some}
use block_preempt.Prelude.Int.{ℤ, ◌+ℤ◌, ◌-ℤ◌}
use block_preempt.Params.{ChainConfig}
use block_preempt.Trie.Nibbles.{Bytes}
use block_preempt.Account.State.{AccountState}
use block_preempt.Account.Shards.{eq_ℤ}
use block_preempt.Core.Transaction.{Transaction2}
use block_preempt.Core.TxPool.Plain.{IsPlain}
use block_preempt.Core.TxPool.{Ref}
use block_preempt.Chain.StateDb.{StateDb, read, write, read-write_self, read-write_ne}
use block_preempt.Chain.Update.{World}
use block_preempt.Chain.Execute.{exec_recipient, debit, deposit}
use block_preempt.Chain.Execute.Transfer.{IsHere, debit-IsPlain, deposit-IsHere}

module _ (db : StateDb) (c : ChainConfig) where
  deposit_elsewhere :
      (own : ℤ) (commit : Bool) (v : Ref) (r : Bytes) (amount : ℤ) (a : AccountState)
      (w : World db c own)
      → eq_ℤ a.location own ≡ false
      → deposit db c own commit v r (some amount) a w ≡ some w
  unfolding deposit
  deposit_elsewhere own commit v r amount a w h = simp h

  debit_relayed :
      (own : ℤ) (tx : Transaction2) (amount : ℤ) (st : db.S)
      → tx.is_relay ≡ true
      → debit db c own tx (some amount) st ≡ some st
  unfolding debit
  debit_relayed own tx amount st h = simp h

  -- A payment to an account of another shard, without the bank, that is not relayed, from an account of
  -- the state: it does not panic, takes the amount from the sender, and changes no other account.
  pub exec_recipient_sends :
      (own : ℤ) (commit : Bool) (v : Ref) (r : Bytes) (amount : ℤ) (w : World db c own)
      (s a : AccountState)
      → IsPlain (w.pool.store v).sender (w.pool.store v)
      → c.enable_bank ≡ false
      → (w.pool.store v).sender ≢ r
      → read db w.st (w.pool.store v).sender ≡ some s
      → read db w.st r ≡ some a
      → eq_ℤ a.location own ≡ false
      → (w' : World db c own) × (exec_recipient db c own commit v r (some amount) w ≡ some w')
        × (read db w'.st (w.pool.store v).sender
            ≡ some (record s { balance = s.balance -ℤ amount }))
        × ((k : Bytes) → (w.pool.store v).sender ≢ k → read db w'.st k ≡ read db w.st k)
  unfolding exec_recipient
  exec_recipient_sends own commit v r amount w s a hp hb ne hs ha away =
      let sender = (w.pool.store v).sender in
      let s' : AccountState = record s { balance = s.balance -ℤ amount } in
      let st₁ = write db w.st sender s' in
      let e₁ = debit-IsPlain db c own (w.pool.store v) amount w.st s hp hb hs in
      let e₂ = read-write_ne db w.st sender r s' ne ∙ ha in
      let e₃ = deposit_elsewhere own commit v r amount a (record w { st = st₁ }) away in
      (
        record w { st = st₁ },
        simp (e₁, e₂, e₃),
        read-write_self db w.st sender s',
        λ k n. read-write_ne db w.st sender k s' n,
      )

  -- A relayed payment to an account of this shard that does not move: it does not panic, gives the
  -- amount to the recipient, and changes no other account, the sender included.
  pub exec_recipient_receives :
      (own : ℤ) (commit : Bool) (v : Ref) (r : Bytes) (amount : ℤ) (w : World db c own)
      (a : AccountState)
      → (w.pool.store v).is_relay ≡ true
      → read db w.st r ≡ some a
      → IsHere db c own a
      → (w' : World db c own) × (exec_recipient db c own commit v r (some amount) w ≡ some w')
        × (read db w'.st r ≡ some (record a { balance = a.balance +ℤ amount }))
        × ((k : Bytes) → r ≢ k → read db w'.st k ≡ read db w.st k)
  unfolding exec_recipient
  exec_recipient_receives own commit v r amount w a hr ha here =
      let a' : AccountState = record a { balance = a.balance +ℤ amount } in
      let e₁ = debit_relayed own (w.pool.store v) amount w.st hr in
      let e₃ = deposit-IsHere db c own commit v r amount a w here in
      (
        record w { st = write db w.st r a' },
        simp (e₁, ha) e₃,
        read-write_self db w.st r a',
        λ k n. read-write_ne db w.st r k a' n,
      )
