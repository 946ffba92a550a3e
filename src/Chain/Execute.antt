-- ===== src/Chain/Execute.antt =====
-- chain/blockchain.go, `getUpdatedTreeOfState`: the transactions of the block, the accounts that leave,
-- and the composition of all steps.
pub mod Transfer
pub mod Relay
pub mod Migrate
use mathlib.Core.Option
use block_preempt.Prelude.{
  ℕ, Bool, true, false, not, ◌&&◌, ◌||◌, Option, none, some, List, [], ◌∷◌, ◌==◌, if◌then◌else◌,
  ◌>>=◌,
}
use block_preempt.Prelude.Int.{ℤ, pos, negsuc, ◌+ℤ◌, ◌-ℤ◌}
use block_preempt.Params.{ChainConfig}
use block_preempt.Trie.Nibbles.{Bytes}
use block_preempt.Account.Hex.{Str, str_eq, decode_string}
use block_preempt.Account.State.{AccountState}
use block_preempt.Account.Shards.{eq_ℤ, assign}
use block_preempt.Account.Credit.{bank_account_addr}
use block_preempt.Core.Migration.{TxMig1, TxMig2, TxAnn, TxNs}
use block_preempt.Core.Transaction.{Transaction2}
use block_preempt.Core.TxPool.{Ref, TxPool, write_ref}
use block_preempt.Chain.StateDb.{StateDb, read, write}
use block_preempt.Chain.Generate.{Migrations}
use block_preempt.Chain.Update.{World, first_of, rest_of, credit_account, settle_mig2, mortgage}

module _ (db : StateDb) (c : ChainConfig) (own : ℤ) where
  -- The sender's part of one payment.
  unfoldable pub debit : Transaction2 → Option ℤ → db.S → Option db.S
  debit tx value st =
      if not tx.is_relay && not tx.relay_lock
      then (if c.enable_bank && str_eq tx.sender bank_account_addr
          then (value >>= λ amount. some st)
          else (read db st tx.sender >>= λ a. value >>= λ amount.
              some (write db st tx.sender (record a { balance = a.balance -ℤ amount }))))
      else some st

  -- The recipient's part: passed over where the account is not in this shard, or leaves it under locks.
  unfoldable pub deposit :
      Bool → Ref → Bytes → Option ℤ → AccountState → World db c own → Option (World db c own)
  deposit commit v r value a w =
      let half = record (w.pool.store v) { half_lock = true } in
      if not (eq_ℤ a.location own)
      then some w
      else if not (eq_ℤ a.migrate (negsuc 0)) && c.lock_acc_when_migrating
      then some w
      else (value >>= λ amount. some (record w {
        st = write db w.st r (credit_account db c own amount a);
        pool =
            if commit && not (eq_ℤ a.migrate (negsuc 0)) then write_ref w.pool v half else w.pool;
      }))

  unfoldable pub exec_recipient :
      Bool → Ref → Bytes → Option ℤ → World db c own → Option (World db c own)
  unfolding debit deposit
  exec_recipient commit v r value w = do
    st ← debit (w.pool.store v) value w.st
    a ← read db st r
    deposit commit v r value a (record w { st = st })

  unfoldable pub exec_recipients :
      Bool → Ref → List Bytes → List ℤ → World db c own → Option (World db c own)
  unfolding exec_recipient
  exec_recipients commit v [] values w = some w
  exec_recipients commit v (r ∷ rs) values w = do
    w' ← exec_recipient commit v r (first_of values) w
    exec_recipients commit v rs (rest_of values) w'

  unfoldable pub exec_txs : Bool → List Ref → World db c own → Option (World db c own)
  unfolding exec_recipients
  exec_txs commit [] w = some w
  exec_txs commit (v ∷ rest) w = do
    w' ← exec_recipients commit v (w.pool.store v).recipient (w.pool.store v).value w
    exec_txs commit rest w'

  -- An account that moves out: its destination is noted, and its balance goes into the block's result.
  unfoldable pub mark_mig1 : TxMig1 → World db c own → Option (World db c own)
  mark_mig1 v w = read db w.st (decode_string v.address) >>= λ a. some (record w {
    st = write db w.st (decode_string v.address) (record a { migrate = v.toshard_id });
    outbalance = assign w.outbalance v.address (some a.balance);
  })

  unfoldable pub apply_ann : TxAnn → World db c own → Option (World db c own)
  apply_ann v w = read db w.st (decode_string v.address) >>= λ a. some (record w {
    st =
        write db w.st (decode_string v.address)
          (record a { migrate = negsuc 0; location = v.toshard_id });
  })

  unfoldable pub apply_ns : TxNs → World db c own → Option (World db c own)
  apply_ns v w = read db w.st (decode_string v.address) >>= λ a. some (record w {
    st = write db w.st (decode_string v.address) (credit_account db c own v.change a);
  })

  unfoldable pub each :
      {A : Type 0}
      → (A → World db c own → Option (World db c own))
      → List A
      → World db c own
      → Option (World db c own)
  each step [] w = some w
  each step (x ∷ xs) w = do w' ← step x w; each step xs w'

  abbrev pub run_if :
      Bool → (World db c own → Option (World db c own)) → World db c own → Option (World db c own)
  run_if true step w = step w
  run_if false step w = some w

  -- `outbalance` starts empty. The shipped callers pass the same object as both configurations.
  unfoldable pub get_updated_tree_of_state :
      Bool → List Ref → Migrations → World db c own → Option (World db c own)
  unfolding exec_txs each
  get_updated_tree_of_state commit txs m w = do
    w1 ←
        run_if (not c.stop_when_migrating) (each (settle_mig2 db c own) m.mig2s)
          (record w { outbalance = λ addr. none })
    w2 ← run_if c.enable_bank (each (mortgage db c own) m.mig1s) w1
    w3 ← exec_txs commit txs w2
    w4 ← run_if (not c.stop_when_migrating) (each mark_mig1 m.mig1s) w3
    w5 ← run_if (not c.stop_when_migrating) (each apply_ann m.anns) w4
    run_if (not c.stop_when_migrating) (each apply_ns m.nss) w5
