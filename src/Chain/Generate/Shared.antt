-- ===== src/Chain/Generate/Shared.antt =====
-- The migration part of a block where the four fetches share `MaxMigSize`.
use block_preempt.Prelude.{ℕ, ◌+◌, ◌≤◌, ◌<◌, ◌≡◌, refl, ap, true, false, List, [], length, arith}
use block_preempt.Params.{ChainConfig}
use block_preempt.Core.Pools.{
  fetch_txmig1s2_pack, fetch_txmig2s2_pack, fetch_txanns2_pack, fetch_txnss2_pack, count_of,
}
use block_preempt.Core.Pools.Fetch.{
  IsFetch, fetch_txmig1s2_pack-IsFetch, fetch_txmig2s2_pack-IsFetch, fetch_txanns2_pack-IsFetch,
  fetch_txnss2_pack-IsFetch,
}
use block_preempt.Chain.Generate.{Migrations, count, generate_migrations}

-- The configuration under which the fetches share a quota: the shipped one is such.
abbrev pub IsShared : ChainConfig → Type 0
IsShared c =
    (c.stop_when_migrating ≡ false)
    × (c.algorithm ≡ false)
    × (c.pressure ≡ false)
    × (c.bu_tong_shi_jian ≡ false)

-- Four fetches, each under what the one before left of the quota.
module _ {A B C D : Type 0} {q : ℕ} {xs : List A} {ys : List B} {zs : List C} {ws : List D}
    (ra : List A × ℕ × List A) (rb : List B × ℕ × List B) (rc : List C × ℕ × List C)
    (rd : List D × ℕ × List D) (ha : IsFetch q xs ra) (hb : IsFetch ra.1 ys rb)
    (hc : IsFetch rb.1 zs rc) (hd : IsFetch rc.1 ws rd) where
  four_within : length ra.0 + length rb.0 + length rc.0 + length rd.0 ≤ q
  four_within = omega (arith, ha.quota_left, hb.quota_left, hc.quota_left, hd.quota_left)

  four_empty :
      length ra.0 + length rb.0 + length rc.0 + length rd.0 < q
      → length ra.2 + length rb.2 + length rc.2 + length rd.2 ≡ 0
  four_empty lt = omega (
    arith,
    ap length (
        ha.greedy (λ e.
          absurd (omega (arith, ha.quota_left, hb.quota_left, hc.quota_left, hd.quota_left, e)))),
    ap length (
        hb.greedy (λ e.
          absurd (omega (arith, ha.quota_left, hb.quota_left, hc.quota_left, hd.quota_left, e)))),
    ap length (
        hc.greedy (λ e.
          absurd (omega (arith, ha.quota_left, hb.quota_left, hc.quota_left, hd.quota_left, e)))),
    ap length (
        hd.greedy (λ e.
          absurd (omega (arith, ha.quota_left, hb.quota_left, hc.quota_left, hd.quota_left, e)))),
  )

count_of_zero : {A : Type 0} (queue : List A) → count_of 0 queue ≡ 0
count_of_zero queue = ground arith

fetch_txmig2s2_pack_zero :
    {A : Type 0} (queue : List A) → fetch_txmig2s2_pack 0 queue ≡ ([], 0, queue)
unfolding fetch_txmig2s2_pack
fetch_txmig2s2_pack_zero queue = rw (count_of_zero queue) refl

fetch_txanns2_pack_zero :
    {A : Type 0} (queue : List A) → fetch_txanns2_pack 0 queue ≡ ([], 0, queue)
unfolding fetch_txanns2_pack
fetch_txanns2_pack_zero queue = rw (count_of_zero queue) refl

fetch_txnss2_pack_zero : {A : Type 0} (queue : List A) → fetch_txnss2_pack 0 queue ≡ ([], 0, queue)
unfolding fetch_txnss2_pack
fetch_txnss2_pack_zero queue = rw (count_of_zero queue) refl

module _ (c : ChainConfig) (id : ℕ) (pools : Migrations) (h : IsShared c) where
  -- Where the four fetches share the quota and `Bu_Tong_Bi_Li_2` is set, the block takes at most
  -- `MaxMigSize` migration transactions, and if it takes fewer, all four pools are empty afterwards.
  pub generate_migrations_quota :
      c.bu_tong_bi_li_2 ≡ true
      → let r = generate_migrations c id pools in
        (count r.0 ≤ c.max_mig_size) × (count r.0 < c.max_mig_size → count r.1 ≡ 0)
  unfolding generate_migrations fetch_txmig1s2_pack
  generate_migrations_quota e =
      let (h₁, h₂, h₃, h₄) = h in
      let ra = fetch_txmig1s2_pack c pools.mig1s in
      let rb = fetch_txmig2s2_pack ra.1 pools.mig2s in
      let rc = fetch_txanns2_pack rb.1 pools.anns in
      let rd = fetch_txnss2_pack rc.1 pools.nss in
      let fa = fetch_txmig1s2_pack-IsFetch c pools.mig1s e in
      let fb = fetch_txmig2s2_pack-IsFetch ra.1 pools.mig2s in
      let fc = fetch_txanns2_pack-IsFetch rb.1 pools.anns in
      let fd = fetch_txnss2_pack-IsFetch rc.1 pools.nss in
      rw h₁ (
        rw h₂
          (rw h₃ (rw h₄ (four_within ra rb rc rd fa fb fc fd, four_empty ra rb rc rd fa fb fc fd))))

  -- Where the four fetches share the quota and `Bu_Tong_Bi_Li_2` is not set, the block takes the whole
  -- pool of `TXmig1`, and nothing at all of the three others.
  pub generate_migrations_starved :
      c.bu_tong_bi_li_2 ≡ false
      → let r = generate_migrations c id pools in
        (r.0.mig1s ≡ pools.mig1s)
        × (r.0.mig2s ≡ [])
        × (r.0.anns ≡ [])
        × (r.0.nss ≡ [])
        × (r.1.mig2s ≡ pools.mig2s)
        × (r.1.anns ≡ pools.anns)
        × (r.1.nss ≡ pools.nss)
  unfolding generate_migrations fetch_txmig1s2_pack
  generate_migrations_starved e =
      let (h₁, h₂, h₃, h₄) = h in
      rw h₁ (
        rw h₂ (
          rw h₃ (
            rw h₄ (
              rw e (
                rw (fetch_txmig2s2_pack_zero pools.mig2s) (
                  rw (fetch_txanns2_pack_zero pools.anns) (
                    rw (fetch_txnss2_pack_zero pools.nss)
                      (refl, refl, refl, refl, refl, refl, refl))))))))
