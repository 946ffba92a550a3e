-- ===== src/Chain/Execute/Migrate.antt =====
-- The steps of a migration on the state: it leaves one shard and is settled in the other.
use block_preempt.Prelude.{
  ◌≡◌, refl, sym, ap, ◌∙◌, ◌≢◌, true, some, [], ◌>>=◌, >>=-eq-some, some_inj,
}
use block_preempt.Prelude.Int.{ℤ, negsuc}
use block_preempt.Params.{ChainConfig}
use block_preempt.Trie.Nibbles.{Bytes}
use block_preempt.Account.Hex.{decode_string, str_eq_refl}
use block_preempt.Account.State.{AccountState}
use block_preempt.Account.Shards.{assign}
use block_preempt.Core.Migration.{TxMig1, TxMig2, TxAnn}
use block_preempt.Core.TxPool.{TxPool}
use block_preempt.Core.TxPool.Bank.{get_bank_agg_txs}
use block_preempt.Chain.StateDb.{StateDb, read, write, read-write_self, read-write_ne}
use block_preempt.Chain.Update.{World, settle_mig2, settled, pay_bank_txs}
use block_preempt.Chain.Execute.{mark_mig1, apply_ann}

-- A migration seen from the shard that the account leaves, for an account that its state has: the mark
-- keeps the balance and the location and hands the balance out, the announcement that follows moves the
-- location to the destination, and no step changes another account.
pub mark_mig1-apply_ann :
    (db : StateDb) (c : ChainConfig) (own : ℤ) (m : TxMig1) (n : TxAnn) (a : AccountState)
    (w : World db c own)
    → n.address ≡ m.address
    → read db w.st (decode_string m.address) ≡ some a
    → let key = decode_string m.address in
      (w₁ : World db c own) × (mark_mig1 db c own m w ≡ some w₁)
      × (read db w₁.st key ≡ some (record a { migrate = m.toshard_id }))
      × (w₁.outbalance m.address ≡ some a.balance)
      × ((w₂ : World db c own) × (apply_ann db c own n w₁ ≡ some w₂)
          × (read db w₂.st key ≡ some (record a { migrate = negsuc 0; location = n.toshard_id }))
          × ((k : Bytes) → key ≢ k → read db w₂.st k ≡ read db w.st k))
unfolding mark_mig1 apply_ann
mark_mig1-apply_ann db c own m n a w same ha =
    let key = decode_string m.address in
    let a₁ : AccountState = record a { migrate = m.toshard_id } in
    let a₂ : AccountState = record a { migrate = negsuc 0; location = n.toshard_id } in
    let st₁ = write db w.st key a₁ in
    let st₂ = write db st₁ key a₂ in
    let w₁ : World db c own = record w {
      st = st₁;
      outbalance = assign w.outbalance m.address (some a.balance);
    } in
    let w₂ : World db c own = record w₁ { st = st₂ } in
    let e₁ = read-write_self db w.st key a₁ in
    (
      w₁,
      rw ha refl,
      e₁,
      rw (str_eq_refl m.address) refl,
      (
        w₂,
        rw same (rw e₁ refl),
        read-write_self db st₁ key a₂,
        λ k ne. read-write_ne db st₁ key k a₂ ne ∙ read-write_ne db w.st key k a₁ ne,
      ),
    )

module _ (db : StateDb) (c : ChainConfig) (own : ℤ) (m : TxMig2) (w : World db c own)
    (a : AccountState) (ha : read db w.st (decode_string m.address) ≡ some a) where
  settle_mig2-bank :
      (pool : TxPool)
      → c.enable_bank ≡ true
      → settle_mig2 db c own m (record w { pool = pool }) ≡ (
          pay_bank_txs db c own pool.store (pool.bank_agg_tx_pools m.address) w.st >>= λ st'.
          some (record w {
            st = write db st' (decode_string m.address) (settled db c own m a);
            pool = (get_bank_agg_txs m.address pool).1;
          }))
  unfolding settle_mig2 get_bank_agg_txs
  settle_mig2-bank pool hb = simp (ha, hb)

  settle_mig2_empty :
      (pool : TxPool)
      → c.enable_bank ≡ true
      → pool.bank_agg_tx_pools m.address ≡ []
      → (again : World db c own) × (settle_mig2 db c own m (record w { pool = pool }) ≡ some again)
        × ((k : Bytes) → decode_string m.address ≢ k → read db again.st k ≡ read db w.st k)
  unfolding pay_bank_txs
  settle_mig2_empty pool hb e =
      let key = decode_string m.address in
      let a' : AccountState = settled db c own m a in
      (
        record w { st = write db w.st key a'; pool = (get_bank_agg_txs m.address pool).1 },
        settle_mig2-bank pool hb ∙ rw e refl,
        λ k ne. read-write_ne db w.st key k a' ne,
      )

  -- With the bank, where the settlement returns, it has used up the aggregated transactions of the
  -- account; settled once more on the same state but with those pools, it returns and pays nobody:
  -- every other account is left as it is in that state.
  pub settle_mig2_consumes :
      (w' : World db c own)
      → c.enable_bank ≡ true
      → settle_mig2 db c own m w ≡ some w'
      → (w'.pool.bank_agg_tx_pools m.address ≡ [])
        × ((again : World db c own) × (settle_mig2 db c own m (record w { pool = w'.pool })
              ≡ some again)
            × ((k : Bytes) → decode_string m.address ≢ k → read db again.st k ≡ read db w.st k))
  unfolding get_bank_agg_txs
  settle_mig2_consumes w' hb e =
      let (st', _, q) =
        >>=-eq-some (pay_bank_txs db c own w.pool.store (w.pool.bank_agg_tx_pools m.address) w.st) _
          (sym (settle_mig2-bank w.pool hb) ∙ e) in
      let used : w'.pool.bank_agg_tx_pools m.address ≡ [] =
        ap (λ u. u.pool.bank_agg_tx_pools m.address) (sym (some_inj q))
        ∙ rw (str_eq_refl m.address) refl in
      (used, settle_mig2_empty w'.pool hb used)
