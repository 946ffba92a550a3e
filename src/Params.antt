-- ===== src/Params.antt =====
-- params/config.go: the fields of `ChainConfig` that the modelled code reads. The sizes are `int` in
-- the source; the shipped values are positive, and they are natural numbers here.
pub mod Tables
pub mod Examples
use block_preempt.Prelude.{[], ◌∷◌, ℕ, Bool, true, false}
use block_preempt.Account.Hex.{Str}

-- The address of the experiments, which the source writes out where it uses it.
abbrev pub migrating_address : Str
migrating_address =
    52 ∷ 56 ∷ 57 ∷ 51 ∷ 51 ∷ 56 ∷ 100 ∷ 53 ∷ 101 ∷ 56 ∷ 100 ∷ 52 ∷ 50 ∷ 101 ∷ 56 ∷ 99 ∷ 57 ∷ 50 ∷ 51
    ∷ 100 ∷ 49 ∷ 102 ∷ 52 ∷ 55 ∷ 51 ∷ 54 ∷ 49 ∷ 100 ∷ 57 ∷ 55 ∷ 57 ∷ 53 ∷ 48 ∷ 51 ∷ 100 ∷ 52 ∷ 97
    ∷ 100 ∷ 54 ∷ 56 ∷ []

pub record ChainConfig : Type 0 where
  pub shard_id : Str
  pub node_id : Str
  pub shard_num : ℕ
  pub max_block_size : ℕ
  pub max_mig_size : ℕ
  pub max_mig2_size : ℕ
  pub max_mig1_size : ℕ
  pub max_ann_size : ℕ
  pub max_cap_size : ℕ
  pub stop_when_migrating : Bool
  pub lock_acc_when_migrating : Bool
  pub bu_tong_bi_li : Bool
  pub bu_tong_bi_li_2 : Bool
  pub bu_tong_shi_jian : Bool
  pub bu_tong_shi_jian_jian_ge : ℕ
  pub fail : Bool
  pub fail_time : ℕ
  pub cross_chain : Bool
  pub algorithm : Bool
  pub pressure : Bool
  pub not_lock_immediately : Bool
  pub relay_lock : Bool
  pub enable_bank : Bool

-- The values that `params.Config` is declared with. The shard, the node and the number of shards are
-- not among them: the command line sets them.
abbrev pub config : Str → Str → ℕ → ChainConfig
config shard_id node_id shard_num = record {
  shard_id = shard_id;
  node_id = node_id;
  shard_num = shard_num;
  max_block_size = 2000;
  max_mig_size = 1000;
  max_mig2_size = 500;
  max_mig1_size = 500;
  max_ann_size = 500;
  max_cap_size = 500;
  stop_when_migrating = false;
  lock_acc_when_migrating = false;
  bu_tong_bi_li = false;
  bu_tong_bi_li_2 = true;
  bu_tong_shi_jian = false;
  bu_tong_shi_jian_jian_ge = 3;
  fail = false;
  fail_time = 8;
  cross_chain = false;
  algorithm = false;
  pressure = false;
  not_lock_immediately = true;
  relay_lock = false;
  enable_bank = false;
}
