-- ===== src/Migrate/Gather.antt =====
-- pbft/handleanns.go: `handleAnns` as a whole: the announcements, the transactions that wait for the
-- accounts, the loop over the queue, and those that came after the announcement. Go ranges over a map in
-- any order; the entries of a model's map are taken in the order in which they were made.
pub mod Entries
pub mod Whole
use block_preempt.Prelude.{
  ℕ, Bool, true, false, not, ◌&&◌, Option, none, some, List, [], ◌∷◌, ◌++◌, if◌then◌else◌, ◌>>=◌,
}
use block_preempt.Prelude.Int.{ℤ}
use block_preempt.Params.{ChainConfig}
use block_preempt.Account.Hex.{Str, str_eq}
use block_preempt.Account.Shards.{assign}
use block_preempt.Core.Migration.{TxAnn}
use block_preempt.Core.TxPool.{Ref, TxPool, Pools, delete_at}
use block_preempt.Migrate.{Caps, Pendings}
use block_preempt.Migrate.Collect.{Collecting, collect_queue}
use block_preempt.Migrate.Anns.{AccountTables, Leaving, announcements}

-- `cAp.PendingTxs = append(cAp.PendingTxs, pools[addr]...); delete(pools, addr)` for each account of one
-- target shard.
unfoldable pub gather_pendings : Pendings → Pools → Pendings × Pools
gather_pendings [] pools = ([], pools)
gather_pendings ((addr, txs) ∷ rest) pools =
    let (rest', pools') = gather_pendings rest (delete_at pools addr) in
    ((addr, txs ++ pools addr) ∷ rest', pools')

unfoldable pub gather : Caps → Pools → Caps × Pools
unfolding gather_pendings
gather [] pools = ([], pools)
gather ((shard, pendings) ∷ rest) pools =
    let (pendings', pools₁) = gather_pendings pendings pools in
    let (rest', pools₂) = gather rest pools₁ in ((shard, pendings') ∷ rest', pools₂)

-- `delete(account.Outing_Acc_After_Announce, addr)` for each account of `cAps`.
abbrev pub unmark_pendings : Pendings → (Str → Bool) → Str → Bool
unmark_pendings [] outing = outing
unmark_pendings ((addr, txs) ∷ rest) outing = unmark_pendings rest (assign outing addr false)

abbrev pub unmark : Caps → (Str → Bool) → Str → Bool
unmark [] outing = outing
unmark ((shard, pendings) ∷ rest) outing = unmark rest (unmark_pendings pendings outing)

-- The transactions that were parked for the accounts.
unfoldable pub gather_waiting : ChainConfig → Leaving → Leaving
unfolding gather
gather_waiting c s =
    if c.lock_acc_when_migrating
    then (let (caps, pools) = gather s.caps s.pool.locking_tx_pools in
        record s { caps = caps; pool = record s.pool { locking_tx_pools = pools } })
    else if not c.stop_when_migrating
    then (let (caps, pools) = gather s.caps s.pool.outing_before_announce_tx_pools in
        record s { caps = caps; pool = record s.pool { outing_before_announce_tx_pools = pools } })
    else s

unfoldable pub gather_queue : Leaving → Option Leaving
unfolding collect_queue
gather_queue s =
    collect_queue s.isdelete s.pool.queue (record { pool = s.pool; caps = s.caps }) >>= λ r.
    some (record s { caps = r.1.caps; pool = record r.1.pool { queue = r.0 } })

unfoldable pub gather_after : Leaving → Leaving
unfolding gather
gather_after s =
    let (caps, pools) = gather s.caps s.pool.outing_after_announce_tx_pools in
    record s {
      caps = caps;
      pool = record s.pool { outing_after_announce_tx_pools = pools };
      tables = record s.tables {
        outing_after_announce = unmark s.caps s.tables.outing_after_announce;
      };
    }

-- `handleAnns` up to the call of `mpAndSend`, which is given `cAps` and `isdelete`.
unfoldable pub handle_anns :
    (ℕ → ℤ)
    → (List Ref → Bool)
    → ChainConfig
    → (ℤ → Str)
    → List TxAnn
    → TxPool
    → AccountTables
    → Option Leaving
unfolding announcements gather_waiting gather_queue gather_after
handle_anns now grows c names [] pool tables =
    some (record { pool = pool; tables = tables; isdelete = []; caps = [] })
handle_anns now grows c names (ann ∷ anns) pool tables =
    announcements now grows c names (ann ∷ anns)
      (record { pool = pool; tables = tables; isdelete = []; caps = [] })
    >>= λ s. gather_queue (gather_waiting c s) >>= λ s'. some (gather_after s')
