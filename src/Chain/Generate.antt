-- ===== src/Chain/Generate.antt =====
-- chain/blockchain.go, `GenerateBlock`: what goes into a block, and the length of the queue that its log
-- gets, on the pools as they stand then. The header and its hashes are not modelled; the state root is
-- `getUpdatedTreeOfState`, of Chain/Update.
pub mod Quota
pub mod Shared
pub mod Bound
use block_preempt.Prelude.{
  ℕ, ◌+◌, ◌-◌, Bool, true, false, not, ◌&&◌, ◌||◌, List, [], ◌∷◌, length, ◌==◌, if◌then◌else◌,
}
use block_preempt.Prelude.Int.{ℤ, pos, sub_ℕ}
use block_preempt.Params.{ChainConfig, migrating_address}
use block_preempt.Account.Hex.{Str, str_eq}
use block_preempt.Core.Pools.{
  fetch_txmig1s2_pack, fetch_txmig1s2_pack2, fetch_txmig2s2_pack, fetch_txmig2s2_pack2,
  fetch_txanns2_pack, fetch_txanns2_pack2, fetch_txnss2_pack, fetch_txnss2_pack2,
}
use block_preempt.Core.Migration.{TxMig1, TxMig2, TxAnn, TxNs}
use block_preempt.Core.Transaction.{Transaction2}
use block_preempt.Core.TxPool.{Ref, TxPool, Accounts, fetch_txs2_pack}

-- The queues of the four migration pools, or what a block takes of them.
pub record Migrations : Type 0 where
  pub mig1s : List TxMig1
  pub mig2s : List TxMig2
  pub anns : List TxAnn
  pub nss : List TxNs

abbrev pub no_migrations : Migrations
no_migrations = record { mig1s = []; mig2s = []; anns = []; nss = [] }

abbrev pub count : Migrations → ℕ
count m = length m.mig1s + length m.mig2s + length m.anns + length m.nss

abbrev pub limited : ChainConfig → Bool
limited c = c.algorithm || c.pressure

abbrev pub parked_len : (Str → List Ref) → List Str → ℕ
parked_len pools [] = 0
parked_len pools (k ∷ ks) = length (pools k) + parked_len pools ks

-- What the log gets: `queueLen` and the lengths of the parked pools, whose keys are given.
unfoldable pub logged_len : ChainConfig → List Str → ℕ → TxPool → ℕ
logged_len c keys queue_len pool =
    if not c.stop_when_migrating
    then (if not c.lock_acc_when_migrating
        then queue_len + parked_len pool.outing_before_announce_tx_pools keys
        else queue_len + parked_len pool.locking_tx_pools keys)
    else queue_len

-- A fetch that leaves the quota alone.
abbrev pub keep_quota : {A : Type 0} → ℕ → List A × List A → List A × ℕ × List A
keep_quota quota r = (r.0, quota, r.1)

-- `FetchTXmig2s2Pack(10000000)`, whose second result is dropped.
abbrev pub drop_quota : {A : Type 0} → ℕ → List A × ℕ × List A → List A × ℕ × List A
drop_quota quota r = (r.0, quota, r.2)

abbrev pub fetch_mig1s : ChainConfig → ℕ → List TxMig1 → List TxMig1 × ℕ × List TxMig1
fetch_mig1s c quota queue =
    if limited c
    then keep_quota quota (fetch_txmig1s2_pack2 c queue)
    else fetch_txmig1s2_pack c queue

abbrev pub fetch_mig2s : ChainConfig → ℕ → ℕ → List TxMig2 → List TxMig2 × ℕ × List TxMig2
fetch_mig2s c id quota queue =
    if not c.bu_tong_shi_jian
    then (if limited c
        then keep_quota quota (fetch_txmig2s2_pack2 c queue)
        else fetch_txmig2s2_pack quota queue)
    else if id == c.bu_tong_shi_jian_jian_ge
    then drop_quota quota (fetch_txmig2s2_pack 10000000 queue)
    else ([], quota, queue)

abbrev pub fetch_anns : ChainConfig → ℕ → List TxAnn → List TxAnn × ℕ × List TxAnn
fetch_anns c quota queue =
    if limited c
    then keep_quota quota (fetch_txanns2_pack2 c queue)
    else fetch_txanns2_pack quota queue

abbrev pub fetch_nss : ChainConfig → ℕ → List TxNs → List TxNs × ℕ × List TxNs
fetch_nss c quota queue =
    if limited c
    then keep_quota quota (fetch_txnss2_pack2 c queue)
    else fetch_txnss2_pack quota queue

-- The migration part of a block, and the pools that stay. `quota` goes from one fetch to the next.
unfoldable pub generate_migrations : ChainConfig → ℕ → Migrations → Migrations × Migrations
generate_migrations c id pools =
    let (mig1s, quota₁, left_mig1s) = fetch_mig1s c c.max_mig_size pools.mig1s in
    let (mig2s, quota₂, left_mig2s) = fetch_mig2s c id quota₁ pools.mig2s in
    let (anns, quota₃, left_anns) = fetch_anns c quota₂ pools.anns in
    let (nss, quota₄, left_nss) = fetch_nss c quota₃ pools.nss in
    if not c.stop_when_migrating
    then (
      record { mig1s = mig1s; mig2s = mig2s; anns = anns; nss = nss },
      record { mig1s = left_mig1s; mig2s = left_mig2s; anns = left_anns; nss = left_nss },
    )
    else (no_migrations, pools)

-- `params.Config.MaxBlockSize-len(mig1s)-len(mig2s)-len(anns)-len(nss)`, an `int`.
abbrev pub left_count : ChainConfig → Migrations → ℤ
left_count c m = sub_ℕ c.max_block_size (count m)

-- "S0", "S1" and the address of the experiment.
abbrev pub s0 : Str
s0 = 83 ∷ 48 ∷ []

abbrev pub s1 : Str
s1 = 83 ∷ 49 ∷ []

module _ (now : ℕ → ℤ) (gob_copy : Transaction2 → Transaction2) (c : ChainConfig)
    (acc : Accounts) where
  -- `height` is the number of the current block.
  unfoldable pub generate_txs : ℕ → ℕ → Migrations → TxPool → List Ref × ℕ × TxPool
  generate_txs id height m pool =
      let full = fetch_txs2_pack now gob_copy c acc (pos c.max_block_size) (height + 1) pool in
      let rest = fetch_txs2_pack now gob_copy c acc (left_count c m) (height + 1) pool in
      let nothing : List Ref × ℕ × TxPool = ([], 0, pool) in
      if c.cross_chain && not (id == 1)
      then (if str_eq c.shard_id s0 && (c.fail || (not c.fail && not c.lock_acc_when_migrating))
          then full
          else if c.lock_acc_when_migrating && str_eq c.shard_id s1 && not c.fail
          then (if acc.account_in_own_shard migrating_address then full else nothing)
          else nothing)
      else if (not c.bu_tong_bi_li && not c.bu_tong_shi_jian && not c.fail && not c.cross_chain)
          || not (id == 1)
      then rest
      else nothing

  -- The transactions and the migration part of a block, `queueLen` before `logged_len`, and the pools.
  unfoldable pub generate_block :
      ℕ → ℕ → Migrations → TxPool → (List Ref × Migrations) × ℕ × Migrations × TxPool
  unfolding generate_txs generate_migrations
  generate_block id height pools pool =
      let (m, pools') = generate_migrations c id pools in
      let (txs, queue_len, pool') = generate_txs id height m pool in
      ((txs, m), queue_len, pools', pool')
