-- ===== src/Migrate/Messages.antt =====
-- pbft/pbft.go and handleanns.go: the messages of a migration: `handleNewMap` without
-- `Stop_When_Migrating`, `TryTXmig1`, `handleMig2`, `TryAnnounce`, `handleAnnounce` and `mpAndSend`.
-- `prove_mig` and `prove_state` are `Prove` of go-ethereum's tries, on the hash of a transaction and on
-- an address; they do not fail here. `own` is the number of this shard.
pub mod Handshake
use block_preempt.Prelude.{
  ℕ, suc, ◌+◌, Bool, true, false, not, ◌&&◌, Option, none, some, List, [], ◌∷◌, ◌++◌, length, leb,
  get_elem?, get_or, set, replicate, if◌then◌else◌, ◌>>=◌,
}
use block_preempt.Prelude.Int.{ℤ, pos, negsuc, ◌-ℤ◌}
use block_preempt.Params.{ChainConfig}
use block_preempt.Trie.Nibbles.{Bytes}
use block_preempt.Account.Hex.{Str, decode_string}
use block_preempt.Account.State.{AccountState}
use block_preempt.Account.Shards.{eq_ℤ, assign}
use block_preempt.Account.Table.{lookup, insert}
use block_preempt.Core.Migration.{ProofDb, TxMig1, TxMig2, TxAnn, TxNs}
use block_preempt.Core.Pools.{add, add_all}
use block_preempt.Core.TxPool.{TxPool, Ref}
use block_preempt.Migrate.Anns.{AccountTables}
use block_preempt.Migrate.Collect.{IsDelete}

-- The request for one account, whose other fields have their zero values.
abbrev pub make_mig1 : ℤ → Str → ℤ → ℤ → TxMig1
make_mig1 own addr to t = record {
  address = addr;
  fromshard_id = own;
  toshard_id = to;
  request_time = t;
  commit_time = pos 0;
  id = pos 0;
}

-- `new_addr2shard[addr]`: a missing key reads as zero. The requests are made at the times `now`.
unfoldable pub handle_new_map :
    (ℕ → ℤ) → ℤ → (Str → Bool) → (Str → ℤ) → List Str → ℕ → List TxMig1 → ℕ × List TxMig1
unfolding add
handle_new_map now own in_own new_addr2shard [] clock pool = (clock, pool)
handle_new_map now own in_own new_addr2shard (addr ∷ rest) clock pool =
    let (clock', pool') =
      if in_own addr && not (eq_ℤ (new_addr2shard addr) own)
      then (suc clock, add pool (make_mig1 own addr (new_addr2shard addr) (now clock)))
      else (clock, pool) in
    handle_new_map now own in_own new_addr2shard rest clock' pool'

-- `pool[shardID] = append(pool[shardID], x)`, which panics out of range.
abbrev pub append_to : {A : Type 0} → ℤ → A → List (List A) → Option (List (List A))
append_to (pos n) x pool = get_elem? pool n >>= λ xs. some (set pool n (xs ++ x ∷ []))
append_to (negsuc n) x pool = none

-- What shard `k` is sent: nothing for the own shard; an empty list is not sent.
abbrev pub outgoing : {A : Type 0} → ℤ → List (List A) → ℕ → List A
outgoing own pool k = if eq_ℤ (pos k) own then [] else get_or pool k []

module _ (prove_mig : TxMig1 → ProofDb) (prove_state : Bytes → ProofDb)
    (state : Bytes → Option AccountState) (c : ChainConfig) (own : ℤ)
    (outbalance : Str → Option ℤ) where
  -- `&core.TXmig2{…}`: an account that the state lacks, or that has no balance on its way, is a panic.
  abbrev pub make_mig2 : TxMig1 → Option TxMig2
  make_mig2 v = state (decode_string v.address) >>= λ a. outbalance v.address >>= λ value.
      some (record {
        txmig1 = some v;
        mp_mig1 = some (prove_mig v);
        state = some a;
        mp_state = some (prove_state (decode_string v.address));
        h = pos 0;
        address = v.address;
        value = value;
      })

  -- The loop, with the pool that it appends to: `TryOutPool` or the new one.
  unfoldable pub mig2_loop : List TxMig1 → List (List TxMig2) → Option (List (List TxMig2))
  mig2_loop [] pool = some pool
  mig2_loop (v ∷ rest) pool =
      make_mig2 v >>= λ m. append_to v.toshard_id m pool >>= λ pool'. mig2_loop rest pool'

  -- `try_out` is `TryOutPool`. The messages by shard, and `TryOutPool` afterwards.
  unfoldable pub try_txmig1 :
      List TxMig1 → ℕ → List (List TxMig2) → Option ((ℕ → List TxMig2) × List (List TxMig2))
  unfolding mig2_loop
  try_txmig1 txmig1s sequence_id try_out =
      if c.cross_chain && not c.fail
      then (mig2_loop txmig1s try_out >>= λ pool. some (
          if leb 3 sequence_id
          then (outgoing own pool, replicate c.shard_num [])
          else ((λ k. []), pool)))
      else mig2_loop txmig1s (replicate c.shard_num []) >>= λ pool.
          some (outgoing own pool, try_out)

-- The handler prints the value of the first request, and panics where there is none.
unfoldable pub handle_mig2 : List TxMig2 → List TxMig2 → Option (List TxMig2)
unfolding add_all
handle_mig2 [] pool = none
handle_mig2 (m ∷ rest) pool = some (add_all pool (m ∷ rest))

module _ (prove_mig : TxMig2 → ProofDb) (prove_state : Bytes → ProofDb)
    (state : Bytes → Option AccountState) (own : ℤ) where
  abbrev pub announcement : TxMig2 → Option TxAnn
  announcement v = state (decode_string v.address) >>= λ a. some (record {
    txmig2 = some v;
    mp_mig2 = some (prove_mig v);
    state = some a;
    mp_state = some (prove_state (decode_string v.address));
    h = pos 0;
    address = v.address;
    toshard_id = own;
  })

  -- The list that every other shard is sent, an empty one too.
  unfoldable pub try_announce : List TxMig2 → Option (List TxAnn)
  try_announce [] = some []
  try_announce (v ∷ rest) = announcement v >>= λ a. try_announce rest >>= λ anns. some (a ∷ anns)

-- What `handleAnnounce` writes to.
pub record Announcing : Type 0 where
  pub pool : TxPool
  pub tables : AccountTables
  pub txann_pool : List TxAnn

unfoldable pub announce_one : TxAnn → Announcing → Announcing
unfolding add
announce_one v s =
    if s.tables.shards.account_in_own_shard v.address
    then record {
      pool = record s.pool {
        outing_after_announce_tx_pools = assign s.pool.outing_after_announce_tx_pools v.address [];
      };
      tables = record s.tables {
        outing_after_announce = assign s.tables.outing_after_announce v.address true;
      };
      txann_pool = add s.txann_pool v;
    }
    else record s { txann_pool = add s.txann_pool v }

unfoldable pub handle_announce : List TxAnn → Announcing → Announcing
unfolding announce_one
handle_announce [] s = s
handle_announce (v ∷ rest) s = handle_announce rest (announce_one v s)

-- `BalanceBeforeOut`, the messages by target shard, and the number of accounts that did not change.
pub record Sending : Type 0 where
  pub balance_before_out : Str → Option ℤ
  pub nss : List (Str × List TxNs)
  pub unchanged : ℕ

abbrev pub nss_of : Option (List TxNs) → List TxNs
nss_of none = []
nss_of (some nss) = nss

abbrev pub delete_balance : Str → (Str → Option ℤ) → Str → Option ℤ
delete_balance addr balances = assign balances addr none

module _ (prove_mig : TxAnn → ProofDb) (prove_state : Bytes → ProofDb)
    (state : Bytes → Option AccountState) (c : ChainConfig) (names : ℤ → Str) where
  abbrev pub send_change : TxAnn → AccountState → ℤ → Sending → Sending
  send_change ann a change s =
      let shard = names ann.toshard_id in
      let ns : TxNs = record {
        txann = some ann;
        mp_ann = some (prove_mig ann);
        state = some a;
        mp_state = some (prove_state (decode_string ann.address));
        h = pos 0;
        address = ann.address;
        change = change;
      } in
      if eq_ℤ change (pos 0)
      then record s { unchanged = suc s.unchanged }
      else record s { nss = insert s.nss shard (nss_of (lookup s.nss shard) ++ ns ∷ []) }

  -- With the full lock the balance did not change; without it a missing balance is a panic.
  unfoldable pub send_one : TxAnn → Sending → Option Sending
  send_one ann s = state (decode_string ann.address) >>= λ a.
      (if c.lock_acc_when_migrating
        then some (send_change ann a (pos 0) s)
        else s.balance_before_out ann.address >>= λ before. some (
            send_change ann a (a.balance -ℤ before)
              (record s { balance_before_out = delete_balance ann.address s.balance_before_out })))

  -- The loop of `mpAndSend`; `isdelete` says which accounts leave this shard.
  unfoldable pub mp_and_send : IsDelete → List TxAnn → Sending → Option Sending
  unfolding send_one
  mp_and_send isdelete [] s = some s
  mp_and_send isdelete (ann ∷ rest) s =
      let skipped = mp_and_send isdelete rest s in
      let sent = send_one ann s >>= λ s'. mp_and_send isdelete rest s' in
      elim (lookup isdelete ann.address) [ none ↦ skipped | some shard ↦ sent ]
