-- ===== src/Core/TxPool/Bank.antt =====
-- core/txpool.go: the pools of aggregated bank transactions.
use block_preempt.Prelude.{◌≡◌, refl, ◌≢◌, List, [], ◌++◌}
use block_preempt.Account.Hex.{Str, str_eq_refl, str_eq_ne}
use block_preempt.Core.TxPool.{Ref, TxPool, append_at, delete_at}

unfoldable pub add_bank_agg_txs : Str → List Ref → TxPool → TxPool
add_bank_agg_txs addr txs pool = record pool {
  bank_agg_tx_pools = append_at pool.bank_agg_tx_pools addr txs;
}

-- The map is read, and the entry deleted, under one lock.
unfoldable pub get_bank_agg_txs : Str → TxPool → List Ref × TxPool
get_bank_agg_txs addr pool = (
  pool.bank_agg_tx_pools addr,
  record pool { bank_agg_tx_pools = delete_at pool.bank_agg_tx_pools addr },
)

unfoldable pub clear_bank_agg_txs : Str → TxPool → TxPool
clear_bank_agg_txs addr pool = record pool {
  bank_agg_tx_pools = delete_at pool.bank_agg_tx_pools addr;
}

-- Two rounds of aggregation and then a fetch, for any pool: the fetch returns what was there and both
-- rounds, in order; a second fetch returns nothing; and the transactions of every other address are
-- those of the pool at the start.
pub get_bank_agg_txs-add :
    (addr : Str) (xs ys : List Ref) (pool : TxPool)
    → let (txs, pool') =
        get_bank_agg_txs addr (add_bank_agg_txs addr ys (add_bank_agg_txs addr xs pool)) in
      (txs ≡ pool.bank_agg_tx_pools addr ++ xs ++ ys)
      × ((get_bank_agg_txs addr pool').0 ≡ [])
      × ((b : Str) → addr ≢ b → (get_bank_agg_txs b pool').0 ≡ pool.bank_agg_tx_pools b)
unfolding add_bank_agg_txs get_bank_agg_txs
get_bank_agg_txs-add addr xs ys pool =
    (rw (str_eq_refl addr) refl, rw (str_eq_refl addr) refl, λ b ne. rw (str_eq_ne addr b ne) refl)
