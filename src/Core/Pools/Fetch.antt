-- ===== src/Core/Pools/Fetch.antt =====
-- Fetching from a pool: the order is that of arrival, and nothing is lost or taken twice.
use block_preempt.Prelude.{
  ℕ, ◌+◌, ◌-◌, ◌≡◌, ◌≢◌, refl, sym, ◌∙◌, List, [], ◌∷◌, ◌++◌, length, take, drop, take-append-drop,
  length-take, arith, true,
}
use mathlib.Core.List.{append_assoc, append-nil}
use block_preempt.Params.{ChainConfig}
use block_preempt.Core.Pools.{
  count_of, add_all, fetch_txmig2s2_pack, fetch_txanns2_pack, fetch_txnss2_pack,
  fetch_txmig1s2_pack,
}

-- What a fetch under a quota has to do.
pub record IsFetch {ℓ} {A : Type ℓ} (quota : ℕ) (queue : List A) (r : List A × ℕ × List A)
    : Type ℓ where
  pub in_order : r.0 ++ r.2 ≡ queue
  pub quota_left : length r.0 + r.1 ≡ quota
  -- Elements stay behind only when the quota is used up.
  pub greedy : r.1 ≢ 0 → r.2 ≡ []

module _ {ℓ} {A : Type ℓ} where
  length-take_count :
      (max : ℕ) (queue : List A) → length (take (count_of max queue) queue) ≡ count_of max queue
  length-take_count max queue = ground (arith, length-take (count_of max queue) queue)

  drop_all : (queue : List A) → drop (length queue) queue ≡ []
  drop_all [] = refl
  drop_all (x ∷ queue) = drop_all queue

  cut-IsFetch :
      (quota : ℕ) (queue : List A)
      → IsFetch quota queue (
        take (count_of quota queue) queue,
        quota - count_of quota queue,
        drop (count_of quota queue) queue,
      )
  cut-IsFetch quota queue = record {
    in_order = take-append-drop (count_of quota queue) queue;
    quota_left = ground (arith, length-take_count quota queue);
    greedy = λ h. ground (arith, drop_all queue);
  }

  pub fetch_txmig2s2_pack-IsFetch :
      (quota : ℕ) (queue : List A) → IsFetch quota queue (fetch_txmig2s2_pack quota queue)
  unfolding fetch_txmig2s2_pack
  fetch_txmig2s2_pack-IsFetch quota queue = cut-IsFetch quota queue

  pub fetch_txanns2_pack-IsFetch :
      (quota : ℕ) (queue : List A) → IsFetch quota queue (fetch_txanns2_pack quota queue)
  unfolding fetch_txanns2_pack
  fetch_txanns2_pack-IsFetch quota queue = cut-IsFetch quota queue

  pub fetch_txnss2_pack-IsFetch :
      (quota : ℕ) (queue : List A) → IsFetch quota queue (fetch_txnss2_pack quota queue)
  unfolding fetch_txnss2_pack
  fetch_txnss2_pack-IsFetch quota queue = cut-IsFetch quota queue

  -- With `Bu_Tong_Bi_Li_2`, `FetchTXmig1s2Pack` takes the front of its queue in order: what it takes and
  -- what stays are the queue, what it takes and the quota left are `MaxMigSize`, and if some of the
  -- quota is left the queue is empty.
  pub fetch_txmig1s2_pack-IsFetch :
      (c : ChainConfig) (queue : List A)
      → c.bu_tong_bi_li_2 ≡ true
      → IsFetch c.max_mig_size queue (fetch_txmig1s2_pack c queue)
  unfolding fetch_txmig1s2_pack
  fetch_txmig1s2_pack-IsFetch c queue h = rw h (cut-IsFetch c.max_mig_size queue)

  pub add_all-append : (queue xs : List A) → add_all queue xs ≡ queue ++ xs
  unfolding add_all
  add_all-append queue [] = sym (append-nil queue)
  add_all-append queue (x ∷ xs) =
      add_all-append (queue ++ x ∷ []) xs ∙ append_assoc queue (x ∷ []) xs
