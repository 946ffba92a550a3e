-- ===== src/Core/Pools.antt =====
-- core/txmig1pool.go, txmig2pool.go, txannpool.go, txnspool.go: the queues of migration transactions.
-- Each pool of the source is a queue and its lock; a method holds the lock while it touches the queue,
-- so a method is one step on the queue. The four pools differ in the type of their elements, `A`.
pub mod Fetch
use block_preempt.Prelude.{
  ℕ, suc, ◌-◌, Bool, true, false, List, [], ◌∷◌, ◌++◌, length, take, drop, ltb, not, if◌then◌else◌,
}
use block_preempt.Params.{ChainConfig}

module _ {ℓ} {A : Type ℓ} where
  unfoldable pub add : List A → A → List A
  add queue x = queue ++ x ∷ []

  -- `AddTXmig1s`, `AddTXmig2s`, `AddTXanns`, `AddTXnss`
  unfoldable pub add_all : List A → List A → List A
  unfolding add
  add_all queue [] = queue
  add_all queue (x ∷ xs) = add_all (add queue x) xs

  -- What is taken, and what stays in the queue.
  abbrev pub cut : ℕ → List A → List A × List A
  cut cnt queue = (take cnt queue, drop cnt queue)

  abbrev pub count_of : ℕ → List A → ℕ
  count_of max queue = if ltb (length queue) max then length queue else max

  -- The elements, what is left of the quota, and the queue that stays.
  unfoldable pub fetch_txmig2s2_pack : ℕ → List A → List A × ℕ × List A
  fetch_txmig2s2_pack quota queue =
      let max = quota in
      let mig2s_cnt = count_of max queue in
      (take mig2s_cnt queue, max - mig2s_cnt, drop mig2s_cnt queue)

  unfoldable pub fetch_txanns2_pack : ℕ → List A → List A × ℕ × List A
  fetch_txanns2_pack quota queue =
      let max = quota in
      let anns_cnt = count_of max queue in
      (take anns_cnt queue, max - anns_cnt, drop anns_cnt queue)

  unfoldable pub fetch_txnss2_pack : ℕ → List A → List A × ℕ × List A
  fetch_txnss2_pack quota queue =
      let max = quota in
      let nss_cnt = count_of max queue in (take nss_cnt queue, max - nss_cnt, drop nss_cnt queue)

  -- Without `Bu_Tong_Bi_Li_2` everything is taken, and the result `left` keeps its zero value.
  unfoldable pub fetch_txmig1s2_pack : ChainConfig → List A → List A × ℕ × List A
  fetch_txmig1s2_pack c queue =
      if not c.bu_tong_bi_li_2
      then (queue, 0, [])
      else let max = c.max_mig_size in
        let out_cnt = count_of max queue in (take out_cnt queue, max - out_cnt, drop out_cnt queue)

  unfoldable pub fetch_txmig1s2_pack2 : ChainConfig → List A → List A × List A
  fetch_txmig1s2_pack2 c queue = cut (count_of c.max_mig1_size queue) queue

  unfoldable pub fetch_txmig2s2_pack2 : ChainConfig → List A → List A × List A
  fetch_txmig2s2_pack2 c queue = cut (count_of c.max_mig2_size queue) queue

  unfoldable pub fetch_txanns2_pack2 : ChainConfig → List A → List A × List A
  fetch_txanns2_pack2 c queue = cut (count_of c.max_ann_size queue) queue

  unfoldable pub fetch_txnss2_pack2 : ChainConfig → List A → List A × List A
  fetch_txnss2_pack2 c queue = cut (count_of c.max_cap_size queue) queue
