-- ===== src/Chain/Generate/Quota.antt =====
-- The migration part of a block: the quota that its four fetches share.
use mathlib.Core.List.{append-nil}
use block_preempt.Prelude.{
  ℕ, ◌≡◌, refl, Bool, true, false, not, List, ◌++◌, take-append-drop, ◌==◌, if◌then◌else◌,
}
use block_preempt.Params.{ChainConfig}
use block_preempt.Core.Pools.{
  fetch_txmig1s2_pack, fetch_txmig1s2_pack2, fetch_txmig2s2_pack, fetch_txmig2s2_pack2,
  fetch_txanns2_pack, fetch_txanns2_pack2, fetch_txnss2_pack, fetch_txnss2_pack2, count_of,
}
use block_preempt.Core.Migration.{TxMig1, TxMig2, TxAnn, TxNs}
use block_preempt.Chain.Generate.{
  Migrations, limited, fetch_mig1s, fetch_mig2s, fetch_anns, fetch_nss, generate_migrations,
}

-- What is taken and what stays is the queue.
abbrev IsCut : {A : Type 0} → List A → List A × ℕ × List A → Type 0
IsCut queue r = r.0 ++ r.2 ≡ queue

IsCut-if :
    {A : Type 0} (queue : List A) (b : Bool) (x y : List A × ℕ × List A)
    → IsCut queue x
    → IsCut queue y
    → IsCut queue (if b then x else y)
IsCut-if queue true x y hx hy = hx
IsCut-if queue false x y hx hy = hy

fetch_mig1s-IsCut :
    (c : ChainConfig) (quota : ℕ) (queue : List TxMig1) → IsCut queue (fetch_mig1s c quota queue)
unfolding fetch_txmig1s2_pack fetch_txmig1s2_pack2
fetch_mig1s-IsCut c quota queue =
    IsCut-if queue (limited c) _ _ (take-append-drop (count_of c.max_mig1_size queue) queue) (
      IsCut-if queue (not c.bu_tong_bi_li_2) _ _ (append-nil queue)
        (take-append-drop (count_of c.max_mig_size queue) queue))

fetch_mig2s-IsCut :
    (c : ChainConfig) (id quota : ℕ) (queue : List TxMig2)
    → IsCut queue (fetch_mig2s c id quota queue)
unfolding fetch_txmig2s2_pack fetch_txmig2s2_pack2
fetch_mig2s-IsCut c id quota queue =
    IsCut-if queue (not c.bu_tong_shi_jian) _ _
      (IsCut-if queue (limited c) _ _ (take-append-drop (count_of c.max_mig2_size queue) queue)
        (take-append-drop (count_of quota queue) queue))
      (IsCut-if queue (id == c.bu_tong_shi_jian_jian_ge) _ _
        (take-append-drop (count_of 10000000 queue) queue) refl)

fetch_anns-IsCut :
    (c : ChainConfig) (quota : ℕ) (queue : List TxAnn) → IsCut queue (fetch_anns c quota queue)
unfolding fetch_txanns2_pack fetch_txanns2_pack2
fetch_anns-IsCut c quota queue =
    IsCut-if queue (limited c) _ _ (take-append-drop (count_of c.max_ann_size queue) queue)
      (take-append-drop (count_of quota queue) queue)

fetch_nss-IsCut :
    (c : ChainConfig) (quota : ℕ) (queue : List TxNs) → IsCut queue (fetch_nss c quota queue)
unfolding fetch_txnss2_pack fetch_txnss2_pack2
fetch_nss-IsCut c quota queue =
    IsCut-if queue (limited c) _ _ (take-append-drop (count_of c.max_cap_size queue) queue)
      (take-append-drop (count_of quota queue) queue)

pub record Keeps (pools : Migrations) (r : Migrations × Migrations) : Type 0 where
  pub mig1s : r.0.mig1s ++ r.1.mig1s ≡ pools.mig1s
  pub mig2s : r.0.mig2s ++ r.1.mig2s ≡ pools.mig2s
  pub anns : r.0.anns ++ r.1.anns ≡ pools.anns
  pub nss : r.0.nss ++ r.1.nss ≡ pools.nss

Keeps-if :
    (pools : Migrations) (b : Bool) (x y : Migrations × Migrations)
    → Keeps pools x
    → Keeps pools y
    → Keeps pools (if b then x else y)
Keeps-if pools true x y hx hy = hx
Keeps-if pools false x y hx hy = hy

-- Whatever the configuration and the number of the block are, no migration transaction is lost, taken
-- twice or moved: what the block takes of a pool, followed by what stays there, is the pool.
pub generate_migrations-Keeps :
    (c : ChainConfig) (id : ℕ) (pools : Migrations) → Keeps pools (generate_migrations c id pools)
unfolding generate_migrations
generate_migrations-Keeps c id pools =
    let q₁ = (fetch_mig1s c c.max_mig_size pools.mig1s).1 in
    let q₂ = (fetch_mig2s c id q₁ pools.mig2s).1 in
    let q₃ = (fetch_anns c q₂ pools.anns).1 in
    Keeps-if pools (not c.stop_when_migrating) _ _
      (record {
        mig1s = fetch_mig1s-IsCut c c.max_mig_size pools.mig1s;
        mig2s = fetch_mig2s-IsCut c id q₁ pools.mig2s;
        anns = fetch_anns-IsCut c q₂ pools.anns;
        nss = fetch_nss-IsCut c q₃ pools.nss;
      })
      (record { mig1s = refl; mig2s = refl; anns = refl; nss = refl })
