-- ===== src/Chain/Execute/Transfer.antt =====
-- One payment of a transaction.
use block_preempt.Prelude.{◌≡◌, refl, sym, ◌∙◌, ◌≢◌, Bool, true, false, some}
use block_preempt.Prelude.Int.{ℤ, negsuc, ◌+ℤ◌, ◌-ℤ◌}
use block_preempt.Params.{ChainConfig}
use block_preempt.Trie.Nibbles.{Bytes}
use block_preempt.Account.State.{AccountState}
use block_preempt.Account.Shards.{eq_ℤ}
use block_preempt.Core.Transaction.{Transaction2}
use block_preempt.Core.TxPool.Plain.{IsPlain, and_false}
use block_preempt.Core.TxPool.{Ref}
use block_preempt.Chain.StateDb.{StateDb, read, write, read-write_self, read-write_ne}
use block_preempt.Chain.Update.{World, credit_account}
use block_preempt.Chain.Execute.{exec_recipient, debit, deposit}

module _ (db : StateDb) (c : ChainConfig) (own : ℤ) where
  -- An account of this shard that does not move.
  abbrev pub IsHere : AccountState → Type 0
  IsHere a = (eq_ℤ a.location own ≡ true) × (eq_ℤ a.migrate (negsuc 0) ≡ true)

  pub deposit-IsHere :
      (commit : Bool) (v : Ref) (r : Bytes) (amount : ℤ) (a : AccountState) (w : World db c own)
      → IsHere a
      → deposit db c own commit v r (some amount) a w
        ≡ some (record w { st = write db w.st r (credit_account db c own amount a) })
  unfolding deposit
  deposit-IsHere commit v r amount a w (h₁, h₂) = simp (h₁, h₂, and_false commit)

  pub debit-IsPlain :
      (tx : Transaction2) (amount : ℤ) (st : db.S) (s : AccountState)
      → IsPlain tx.sender tx
      → c.enable_bank ≡ false
      → read db st tx.sender ≡ some s
      → debit db c own tx (some amount) st
        ≡ some (write db st tx.sender (record s { balance = s.balance -ℤ amount }))
  unfolding debit
  debit-IsPlain tx amount st s (_, h₁, h₂) hb e = simp (h₁, h₂, hb, e)

  -- A payment that is not relayed, without the bank, from an account of the state to another one that
  -- is in this shard and does not move: it does not panic, it takes the amount from the sender and
  -- gives it to the recipient, and it changes nothing else of any account, and nothing of the pools.
  pub exec_recipient_pays :
      (commit : Bool) (v : Ref) (r : Bytes) (amount : ℤ) (w : World db c own) (s a : AccountState)
      → let tx = w.pool.store v in
        IsPlain tx.sender tx
        → c.enable_bank ≡ false
        → tx.sender ≢ r
        → read db w.st tx.sender ≡ some s
        → read db w.st r ≡ some a
        → IsHere a
        → (w' : World db c own) × (exec_recipient db c own commit v r (some amount) w ≡ some w')
          × (read db w'.st tx.sender ≡ some (record s { balance = s.balance -ℤ amount }))
          × (read db w'.st r ≡ some (record a { balance = a.balance +ℤ amount }))
          × ((k : Bytes) → tx.sender ≢ k → r ≢ k → read db w'.st k ≡ read db w.st k)
          × (w'.pool ≡ w.pool)
  unfolding exec_recipient
  exec_recipient_pays commit v r amount w s a hp hb ne hs ha here =
      let sender = (w.pool.store v).sender in
      let s' : AccountState = record s { balance = s.balance -ℤ amount } in
      let a' : AccountState = record a { balance = a.balance +ℤ amount } in
      let st₁ = write db w.st sender s' in
      let w' : World db c own = record w { st = write db st₁ r a' } in
      let e₁ = debit-IsPlain (w.pool.store v) amount w.st s hp hb hs in
      let e₂ = read-write_ne db w.st sender r s' ne ∙ ha in
      let e₃ = deposit-IsHere commit v r amount a (record w { st = st₁ }) here in
      (
        w',
        simp (e₁, e₂, e₃),
        read-write_ne db st₁ r sender a' (λ q. ne (sym q)) ∙ read-write_self db w.st sender s',
        read-write_self db st₁ r a',
        (λ k n₁ n₂. read-write_ne db st₁ r k a' n₂ ∙ read-write_ne db w.st sender k s' n₁),
        refl,
      )
