-- ===== src/Chain/Examples.antt =====
-- The state on small inputs, over a state that is a function from keys to encodings.
pub mod Blocks
use block_preempt.Prelude.{
  ℕ, zero, suc, ◌+◌, ◌-◌, ◌≡◌, refl, ◌≢◌, ◌≤◌, ◌<◌, true, false, Option, none, some, [], ◌∷◌,
  length, take, if◌then◌else◌, arith,
}
use block_preempt.Prelude.Int.{ℤ, pos, negsuc, ◌+ℤ◌, ◌-ℤ◌}
use block_preempt.Params.{ChainConfig, config}
use block_preempt.Trie.Nibbles.{Bytes}
use block_preempt.Account.Hex.{Str, str_eq, str_eq_refl, str_eq_ne, decode_string}
use block_preempt.Account.State.{AccountState}
use block_preempt.Core.Transaction.{Transaction2, transaction2}
use block_preempt.Core.TxPool.{TxPool, Accounts}
use block_preempt.Core.Migration.{TxMig1, TxMig2, TxAnn}
use block_preempt.Chain.StateDb.{StateDb, read}
use block_preempt.Chain.Generate.{
  Migrations, no_migrations, count, generate_migrations, generate_block,
}
use block_preempt.Chain.Generate.Quota.{Keeps, generate_migrations-Keeps}
use block_preempt.Chain.Generate.Shared.{generate_migrations_quota, generate_migrations_starved}
use block_preempt.Chain.Generate.Bound.{generate_block_bound, generate_block_overrun}
use block_preempt.Core.Pools.{fetch_txmig1s2_pack}
use block_preempt.Chain.Update.{World, settle_mig2, pay_recipients, pay_bank_txs}
use block_preempt.Core.TxPool.Bank.{get_bank_agg_txs}
use block_preempt.Chain.Execute.{exec_recipient, mark_mig1, apply_ann}
use block_preempt.Chain.Execute.Relay.{exec_recipient_sends, exec_recipient_receives}
use block_preempt.Chain.Execute.Transfer.{exec_recipient_pays}
use block_preempt.Chain.Execute.Migrate.{mark_mig1-apply_ann, settle_mig2_consumes}

abbrev pub put_int : ℤ → Bytes → Bytes
put_int (pos n) rest = 0 ∷ n ∷ rest
put_int (negsuc n) rest = 1 ∷ n ∷ rest

abbrev pub take_int : ℕ → ℕ → ℤ
take_int zero n = pos n
take_int (suc s) n = negsuc n

abbrev pub pack : AccountState → Bytes
pack a = put_int a.balance (put_int a.migrate (put_int a.location []))

abbrev pub no_account : AccountState
no_account = record { balance = pos 0; migrate = negsuc 0; location = pos 0 }

abbrev pub unpack : Bytes → AccountState
unpack (s₁ ∷ n₁ ∷ s₂ ∷ n₂ ∷ s₃ ∷ n₃ ∷ []) = record {
  balance = take_int s₁ n₁;
  migrate = take_int s₂ n₂;
  location = take_int s₃ n₃;
}
unpack _ = no_account

pub unpack-pack :
    (b m l : ℤ)
    → unpack (pack (record { balance = b; migrate = m; location = l }))
      ≡ record { balance = b; migrate = m; location = l }
unpack-pack (pos b) (pos m) (pos l) = refl
unpack-pack (pos b) (pos m) (negsuc l) = refl
unpack-pack (pos b) (negsuc m) (pos l) = refl
unpack-pack (pos b) (negsuc m) (negsuc l) = refl
unpack-pack (negsuc b) (pos m) (pos l) = refl
unpack-pack (negsuc b) (pos m) (negsuc l) = refl
unpack-pack (negsuc b) (negsuc m) (pos l) = refl
unpack-pack (negsuc b) (negsuc m) (negsuc l) = refl

abbrev pub db : StateDb
db = record {
  S = Bytes → Option Bytes;
  get = λ s k. s k;
  update = λ s k v j. if str_eq k j then some v else s j;
  encode = pack;
  decode = unpack;
  decode-encode = λ a. unpack-pack a.balance a.migrate a.location;
  get-update_self = λ s k a. rw (str_eq_refl k) refl;
  get-update_ne = λ s k j v ne. rw (str_eq_ne k j ne) refl;
}

abbrev pub shipped : ChainConfig
shipped = config (83 ∷ 48 ∷ []) (78 ∷ 48 ∷ []) 2

abbrev pub banking : ChainConfig
banking = record shipped { enable_bank = true }

abbrev pub here : AccountState
here = record { balance = pos 100; migrate = negsuc 0; location = pos 0 }

-- The account 01 pays 5 to the account 02.
abbrev pub payment : Transaction2
payment = transaction2 (1 ∷ []) ((2 ∷ []) ∷ []) (pos 5 ∷ [])

abbrev pub pool : TxPool
pool = record {
  store = λ r. payment;
  next_ref = 9;
  clock = 1;
  queue = 4 ∷ 5 ∷ [];
  outing_before_announce_tx_pools = λ a. [];
  outing_after_announce_tx_pools = λ a. [];
  locking_tx_pools = λ a. [];
  bank_agg_tx_pools = λ a. 3 ∷ [];
}

abbrev pub world : (c : ChainConfig) → World db c (pos 0)
world c = record {
  st = λ k. some (pack here);
  pool = pool;
  credit = λ a. none;
  outbalance = λ a. none;
}

abbrev pub key_1 : Bytes
key_1 = 1 ∷ []

abbrev pub key_2 : Bytes
key_2 = 2 ∷ []

one_two : key_1 ≢ key_2
one_two e = cc

exec_recipient_pays_example :
    (w' : World db shipped (pos 0)) × (exec_recipient db shipped
        (pos 0)
        true
        4
        key_2
        (some (pos 5))
        (world shipped)
      ≡ some w')
    × (read db w'.st key_1 ≡ some (record here { balance = pos 100 -ℤ pos 5 }))
    × (read db w'.st key_2 ≡ some (record here { balance = pos 100 +ℤ pos 5 }))
    × ((k : Bytes) → key_1 ≢ k → key_2 ≢ k → read db w'.st k ≡ read db (world shipped).st k)
    × (w'.pool ≡ pool)
exec_recipient_pays_example =
    exec_recipient_pays db shipped (pos 0) true 4 key_2 (pos 5) (world shipped) here here
      (refl, refl, refl) refl one_two refl refl (refl, refl)

-- "01"
abbrev pub addr : Str
addr = 48 ∷ 49 ∷ []

abbrev pub mig1 : TxMig1
mig1 = record {
  address = addr;
  fromshard_id = pos 0;
  toshard_id = pos 1;
  request_time = pos 0;
  commit_time = pos 0;
  id = pos 0;
}

abbrev pub mig2 : TxMig2
mig2 = record {
  txmig1 = none;
  mp_mig1 = none;
  state = none;
  mp_state = none;
  h = pos 3;
  address = addr;
  value = pos 40;
}

abbrev pub ann : TxAnn
ann = record {
  txmig2 = none;
  mp_mig2 = none;
  state = none;
  mp_state = none;
  h = pos 4;
  address = addr;
  toshard_id = pos 1;
}

mark_mig1-apply_ann_example :
    let key = decode_string addr in
    (w₁ : World db shipped (pos 0)) × (mark_mig1 db shipped (pos 0) mig1 (world shipped) ≡ some w₁)
    × (read db w₁.st key ≡ some (record here { migrate = pos 1 }))
    × (w₁.outbalance addr ≡ some (pos 100))
    × ((w₂ : World db shipped (pos 0)) × (apply_ann db shipped (pos 0) ann w₁ ≡ some w₂)
        × (read db w₂.st key ≡ some (record here { migrate = negsuc 0; location = pos 1 }))
        × ((k : Bytes) → key ≢ k → read db w₂.st k ≡ read db (world shipped).st k))
mark_mig1-apply_ann_example =
    mark_mig1-apply_ann db shipped (pos 0) mig1 ann here (world shipped) refl refl

-- The bank has paid the account 02, and the aggregated transactions are gone.
abbrev settled_world : World db banking (pos 0)
settled_world = record (world banking) {
  st =
      db.update (db.update (world banking).st key_2 (pack (record here { balance = pos 105 })))
        key_1 (pack (record here { balance = pos 40 }));
  pool = (get_bank_agg_txs addr pool).1;
}

settled_returns : settle_mig2 db banking (pos 0) mig2 (world banking) ≡ some settled_world
unfolding settle_mig2 pay_bank_txs pay_recipients get_bank_agg_txs decode_string ◌+ℤ◌
settled_returns = refl

settle_mig2_consumes_example :
    (settled_world.pool.bank_agg_tx_pools addr ≡ [])
    × ((again : World db banking (pos 0)) × (settle_mig2 db banking
            (pos 0)
            mig2
            (record (world banking) { pool = settled_world.pool })
          ≡ some again)
        × ((k : Bytes)
            → decode_string addr ≢ k
            → read db again.st k ≡ read db (world banking).st k))
settle_mig2_consumes_example =
    settle_mig2_consumes db banking (pos 0) mig2 (world banking) here refl settled_world refl
      settled_returns

-- A world whose account 02 is in the other shard, and one whose transactions are relayed.
abbrev away : AccountState
away = record here { location = pos 1 }

abbrev split_world : World db shipped (pos 0)
split_world = record (world shipped) {
  st = λ k. if str_eq k key_2 then some (pack away) else some (pack here);
}

exec_recipient_sends_example :
    (w' : World db shipped (pos 0)) × (exec_recipient db shipped
        (pos 0)
        true
        4
        key_2
        (some (pos 5))
        split_world
      ≡ some w')
    × (read db w'.st key_1 ≡ some (record here { balance = pos 100 -ℤ pos 5 }))
    × ((k : Bytes) → key_1 ≢ k → read db w'.st k ≡ read db split_world.st k)
exec_recipient_sends_example =
    exec_recipient_sends db shipped (pos 0) true 4 key_2 (pos 5) split_world here away
      (refl, refl, refl) refl one_two refl refl refl

abbrev relayed_world : World db shipped (pos 0)
relayed_world = record (world shipped) {
  pool = record pool { store = λ r. record payment { is_relay = true } };
}

exec_recipient_receives_example :
    (w' : World db shipped (pos 0)) × (exec_recipient db shipped
        (pos 0)
        true
        4
        key_2
        (some (pos 5))
        relayed_world
      ≡ some w')
    × (read db w'.st key_2 ≡ some (record here { balance = pos 100 +ℤ pos 5 }))
    × ((k : Bytes) → key_2 ≢ k → read db w'.st k ≡ read db relayed_world.st k)
exec_recipient_receives_example =
    exec_recipient_receives db shipped (pos 0) true 4 key_2 (pos 5) relayed_world here refl refl
      (refl, refl)
