-- ===== src/Migrate/Samples.antt =====
-- A small pool of the leader of shard 0, whose account 1 moves to shard 1.
use block_preempt.Prelude.{
  ◌≡◌, some_inj, Bool-cases, inl, inr, true, false, none, some, [], ◌∷◌, ◌==◌, if◌then◌else◌,
}
use block_preempt.Prelude.Int.{ℤ, pos, negsuc}
use block_preempt.Params.{ChainConfig, config}
use block_preempt.Account.Hex.{Str, str_eq, str_eq_sound}
use block_preempt.Account.Table.{lookup}
use block_preempt.Account.State.{AccountState}
use block_preempt.Core.Transaction.{Transaction2, transaction2}
use block_preempt.Core.Migration.{TxMig1, TxMig2, TxAnn}
use block_preempt.Core.TxPool.{Ref, TxPool}
use block_preempt.Migrate.Anns.{AccountTables}

abbrev pub shipped : ChainConfig
shipped = config (83 ∷ 48 ∷ []) (78 ∷ 48 ∷ []) 2

-- The address of the account 1, as text.
abbrev pub mover : Str
mover = 48 ∷ 49 ∷ []

abbrev pub other : Str
other = 48 ∷ 50 ∷ []

abbrev pub shard_1 : Str
shard_1 = 83 ∷ 49 ∷ []

abbrev pub names : ℤ → Str
names s = shard_1

abbrev pub own_payment : Transaction2
own_payment = transaction2 (1 ∷ []) ((3 ∷ []) ∷ []) (pos 5 ∷ [])

abbrev pub foreign_payment : Transaction2
foreign_payment =
    transaction2 (2 ∷ []) ((3 ∷ []) ∷ (4 ∷ []) ∷ (5 ∷ []) ∷ []) (pos 6 ∷ pos 7 ∷ pos 8 ∷ [])

abbrev pub incoming : Transaction2
incoming = record (transaction2 (2 ∷ []) ((1 ∷ []) ∷ []) (pos 8 ∷ [])) { is_relay = true }

abbrev pub store : Ref → Transaction2
store r = if r == 0 then own_payment else if r == 1 then foreign_payment else incoming

abbrev pub pool : TxPool
pool = record {
  store = store;
  next_ref = 3;
  clock = 0;
  queue = 0 ∷ 1 ∷ 2 ∷ [];
  outing_before_announce_tx_pools = λ s. [];
  outing_after_announce_tx_pools = λ s. [];
  locking_tx_pools = λ s. 1 ∷ [];
  bank_agg_tx_pools = λ s. [];
}

abbrev pub tables : AccountTables
tables = record {
  shards = record { account2shard = λ s. some (pos 0); account_in_own_shard = λ s. true };
  lock_acc = λ s. false;
  outing_before_announce = λ s. false;
  outing_after_announce = λ s. false;
}

abbrev pub state_of : AccountState
state_of = record { balance = pos 9; migrate = negsuc 0; location = pos 0 }

abbrev pub request : TxMig1
request = record {
  address = mover;
  fromshard_id = pos 0;
  toshard_id = pos 1;
  request_time = pos 0;
  commit_time = pos 0;
  id = pos 0;
}

abbrev pub taken : TxMig1 → TxMig2
taken v = record {
  txmig1 = some v;
  mp_mig1 = some [];
  state = some state_of;
  mp_state = some [];
  h = pos 0;
  address = v.address;
  value = pos 9;
}

abbrev pub sample_ann : TxAnn
sample_ann = record {
  txmig2 = none;
  mp_mig2 = none;
  state = none;
  mp_state = none;
  h = pos 0;
  address = mover;
  toshard_id = pos 1;
}

-- What a table with one entry has.
pub one_entry :
    {V : Type 0} (k : Str) (v : V) (j : Str) (w : V)
    → lookup ((k, v) ∷ []) j ≡ some w
    → (k ≡ j) × (v ≡ w)
one_entry k v j w e = elim (Bool-cases (str_eq k j)) [
  | inl q ↦ (str_eq_sound k j q, some_inj (rw q at e))
  | inr q ↦ let z : none ≡ some w = rw q at e in cc
]
