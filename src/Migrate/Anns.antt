-- ===== src/Migrate/Anns.antt =====
-- pbft/handleanns.go: `handleAnns` before and after its loop over the queue: what an announcement does
-- to the tables of the accounts, the release of the transactions that wait for the account, and the
-- transactions that it takes along. `names` is `params.ShardTableInt2Str`; `grows xs` says whether Go's
-- `append` to the slice `xs` makes a new array.
pub mod Leavers
pub mod Opened
pub mod Release
use block_preempt.Prelude.{
  ℕ, zero, suc, ◌+◌, Bool, true, false, not, ◌&&◌, ◌||◌, Option, none, some, List, [], ◌∷◌, ◌++◌,
  length, get_elem?, set, take, ltb, if◌then◌else◌, ◌>>=◌,
}
use block_preempt.Prelude.Int.{ℤ, pos, negsuc, ltb_ℤ}
use block_preempt.Params.{ChainConfig}
use block_preempt.Trie.Nibbles.{Bytes}
use block_preempt.Account.Hex.{Str, str_eq, hex}
use block_preempt.Account.Table.{lookup, insert, has}
use block_preempt.Account.Shards.{Shards, assign}
use block_preempt.Core.Transaction.{Transaction2}
use block_preempt.Core.Migration.{TxAnn}
use block_preempt.Core.TxPool.{Ref, TxPool, append_at, delete_at, write_ref, tick}
use block_preempt.Migrate.{Caps, Pendings}
use block_preempt.Migrate.Collect.{IsDelete, Collecting, collect_queue}

-- The package variables of account/account_state.go that the handlers of a migration write to.
pub record AccountTables : Type 0 where
  pub shards : Shards
  pub lock_acc : Str → Bool
  pub outing_before_announce : Str → Bool
  pub outing_after_announce : Str → Bool

pub record Leaving : Type 0 where
  pub pool : TxPool
  pub tables : AccountTables
  pub isdelete : IsDelete
  pub caps : Caps

abbrev pub stamp_unlock : ℤ → Transaction2 → Transaction2
stamp_unlock t tx =
    if ltb_ℤ (pos 0) tx.unlock_time
    then record tx { unlock_time2 = t }
    else record tx { unlock_time = t }

-- The release of what waits for an account: the array that the loop reads, whether the slice in
-- `Locking_TX_Pools` still is that array, and `j`.
pub record Releasing : Type 0 where
  pub pool : TxPool
  pub array : List Ref
  pub shared : Bool
  pub j : ℕ

-- `Locking_TX_Pools[addr][j] = tx; j++`, which panics behind the end of the slice.
abbrev pub put_back : Str → Ref → Releasing → Option Releasing
put_back addr v s =
    let slice = s.pool.locking_tx_pools addr in
    if ltb s.j (length slice)
    then some (record s {
      pool = record s.pool {
        locking_tx_pools =
            λ key. if str_eq addr key then set slice s.j v else s.pool.locking_tx_pools key;
      };
      array = if s.shared then set s.array s.j v else s.array;
      j = suc s.j;
    })
    else none

-- `_, ok := isdelete[addr]; ok`
abbrev pub in_isdelete : IsDelete → Str → Bool
in_isdelete isdelete addr = has isdelete addr

-- The transaction was parked by its recipient `addr`, and its first half is still to be done.
abbrev pub waits_for : Str → Bytes → Transaction2 → Bool
waits_for addr r tx = str_eq (hex r) addr && not tx.is_relay && not tx.relay_lock

abbrev pub update : Ref → Transaction2 → Releasing → Releasing
update v tx s = record s { pool = write_ref s.pool v tx }

-- It goes on to wait for its sender. Where that is `addr` itself the slice may get a new array.
abbrev pub park_again : (List Ref → Bool) → Str → Str → Ref → Releasing → Releasing
park_again grows addr from v s = record s {
  pool = record s.pool { locking_tx_pools = append_at s.pool.locking_tx_pools from (v ∷ []) };
  shared =
      if str_eq from addr then s.shared && not (grows (s.pool.locking_tx_pools addr)) else s.shared;
}

abbrev pub requeue : Ref → Releasing → Releasing
requeue v s = record s { pool = record s.pool { queue = s.pool.queue ++ v ∷ [] } }

module _ (now : ℕ → ℤ) (grows : List Ref → Bool) (isdelete : IsDelete) (lock_acc : Str → Bool)
    (addr : Str) where
  -- The body of the inner loop, for one recipient; a `continue` goes on with the next one.
  unfoldable pub release_recipient : Ref → Bytes → Releasing → Option Releasing
  release_recipient v r s =
      let tx = stamp_unlock (now s.pool.clock) (s.pool.store v) in
      let from = hex tx.sender in
      let s' : Releasing = record s { pool = tick s.pool } in
      if waits_for addr r tx
      then (if in_isdelete isdelete from || lock_acc from
          then some (park_again grows addr from v (update v (record tx { sen_lock = true }) s'))
          else some (requeue v (update v (record tx { success = true }) s')))
      else put_back addr v (update v tx s')

  unfoldable pub release_recipients : Ref → List Bytes → Releasing → Option Releasing
  unfolding release_recipient
  release_recipients v [] s = some s
  release_recipients v (r ∷ rs) s = release_recipient v r s >>= λ s'. release_recipients v rs s'

  -- `k` transactions are left to read, from index `i` on.
  unfoldable pub release_loop : ℕ → ℕ → Releasing → Option Releasing
  unfolding release_recipients
  release_loop zero i s = some s
  release_loop (suc k) i s = get_elem? s.array i >>= λ v.
      release_recipients v (s.pool.store v).recipient s >>= λ s'. release_loop k (suc i) s'

  unfoldable pub release_waiting : TxPool → Option TxPool
  unfolding release_loop
  release_waiting pool =
      let waiting = pool.locking_tx_pools addr in
      release_loop (length waiting) 0
        (record { pool = pool; array = waiting; shared = true; j = 0 })
      >>= λ s. some (record s.pool {
        locking_tx_pools = λ key.
            if str_eq addr key
            then take s.j (s.pool.locking_tx_pools addr)
            else s.pool.locking_tx_pools key;
      })

-- What the announcement does to the tables.
abbrev pub leave_tables : ChainConfig → Str → ℤ → AccountTables → AccountTables
leave_tables c addr to t =
    let shards : Shards = record {
      account2shard = assign t.shards.account2shard addr (some to);
      account_in_own_shard = assign t.shards.account_in_own_shard addr false;
    } in
    record t {
      shards = shards;
      lock_acc = if c.lock_acc_when_migrating then assign t.lock_acc addr false else t.lock_acc;
      outing_before_announce =
          if not c.lock_acc_when_migrating && not c.stop_when_migrating
          then assign t.outing_before_announce addr false
          else t.outing_before_announce;
    }

abbrev pub pendings_or_empty : Option Pendings → Pendings
pendings_or_empty none = []
pendings_or_empty (some pendings) = pendings

-- `cAps[shard] = make(…)` where it is missing, then `cAps[shard][addr] = cAp`, which is empty.
abbrev pub open_entry : Str → Str → Caps → Caps
open_entry shard addr caps =
    insert caps shard (insert (pendings_or_empty (lookup caps shard)) addr [])

-- The account is not in this shard: only the table of shards is changed.
abbrev pub redirect : TxAnn → Leaving → Leaving
redirect ann s = record s {
  tables = record s.tables {
    shards = record s.tables.shards {
      account2shard = assign s.tables.shards.account2shard ann.address (some ann.toshard_id);
    };
  };
}

-- The account is in this shard, and `pool` is the pool after the release.
abbrev pub leave : ChainConfig → (ℤ → Str) → TxAnn → TxPool → Leaving → Leaving
leave c names ann pool s = record {
  pool = pool;
  tables = leave_tables c ann.address ann.toshard_id s.tables;
  isdelete = insert s.isdelete ann.address (names ann.toshard_id);
  caps = open_entry (names ann.toshard_id) ann.address s.caps;
}

module _ (now : ℕ → ℤ) (grows : List Ref → Bool) (c : ChainConfig) (names : ℤ → Str) where
  abbrev pub release_for : TxAnn → Leaving → Option TxPool
  unfolding release_waiting
  release_for ann s =
      if c.lock_acc_when_migrating
      then release_waiting now grows (insert s.isdelete ann.address (names ann.toshard_id))
          (leave_tables c ann.address ann.toshard_id s.tables).lock_acc ann.address s.pool
      else some s.pool

  -- The body of the loop over the announcements.
  unfoldable pub apply_announcement : TxAnn → Leaving → Option Leaving
  unfolding release_waiting
  apply_announcement ann s =
      if not (s.tables.shards.account_in_own_shard ann.address)
      then some (redirect ann s)
      else release_for ann s >>= λ pool. some (leave c names ann pool s)

  unfoldable pub announcements : List TxAnn → Leaving → Option Leaving
  unfolding apply_announcement
  announcements [] s = some s
  announcements (a ∷ rest) s = apply_announcement a s >>= λ s'. announcements rest s'
