-- ===== src/Migrate/Collect.antt =====
-- pbft/handleanns.go: the loop of `handleAnns` over the queue of the pool, which takes out the
-- transactions of the accounts that leave. `isdelete` maps their addresses to the target shards.
pub mod Places
pub mod Partition
pub mod Keeps
use block_preempt.Prelude.{
  Bool, true, false, not, ◌&&◌, ◌||◌, Option, none, some, List, [], ◌∷◌, if◌then◌else◌, ◌>>=◌,
}
use block_preempt.Trie.Nibbles.{Bytes}
use block_preempt.Account.Hex.{Str, hex}
use block_preempt.Account.Table.{lookup}
use block_preempt.Core.Transaction.{Transaction2}
use block_preempt.Core.TxPool.{Ref, TxPool, write_ref}
use block_preempt.Migrate.{Caps, add_pending}

abbrev pub IsDelete : Type 0
IsDelete = List (Str × Str)

-- What the loop carries: the pool, whose objects it writes to, and `cAps`.
pub record Collecting : Type 0 where
  pub pool : TxPool
  pub caps : Caps

-- `shard, ok := isdelete[addr]; ok && b`
abbrev pub found_if : Bool → Option Str → Option Str
found_if b shard = if b then shard else none

abbrev pub if_found :
    Option Str
    → (Str → Option (Bool × Collecting))
    → Option (Bool × Collecting)
    → Option (Bool × Collecting)
if_found none f rest = rest
if_found (some shard) f rest = f shard

abbrev pub second_half : Transaction2 → Bool
second_half tx = tx.is_relay || tx.relay_lock

abbrev pub collect_at : Str → Str → Ref → Collecting → Option (Bool × Collecting)
collect_at shard addr v s =
    add_pending shard addr v s.caps >>= λ caps. some (true, record s { caps = caps })

abbrev pub mark_rec_lock : Ref → Collecting → Collecting
mark_rec_lock v s =
    let tx = s.pool.store v in
    record s { pool = write_ref s.pool v (record tx { rec_lock = true }) }

-- The loop over the recipients, which a `break` ends: whether the transaction was collected.
unfoldable pub collect_recipients :
    IsDelete → Ref → List Bytes → Collecting → Option (Bool × Collecting)
collect_recipients isdelete v [] s = some (false, s)
collect_recipients isdelete v (r ∷ rs) s =
    let tx = s.pool.store v in
    let from = hex tx.sender in
    let to = hex r in
    let rest = collect_recipients isdelete v rs s in
    if_found (found_if (not tx.is_relay && not tx.relay_lock) (lookup isdelete from))
      (λ shard. collect_at shard from v s)
      (if_found (found_if (second_half tx) (lookup isdelete to))
        (λ shard. collect_at shard to v (mark_rec_lock v s)) rest)

abbrev pub keep : Bool → Ref → List Ref → List Ref
keep collected v kept = if collected then kept else v ∷ kept

-- At most one write `Queue[j] = tx` for each transaction that is read: the writes never pass the
-- reads, and what `Queue[:j]` keeps is the list of the transactions written.
unfoldable pub collect_queue : IsDelete → List Ref → Collecting → Option (List Ref × Collecting)
unfolding collect_recipients
collect_queue isdelete [] s = some ([], s)
collect_queue isdelete (v ∷ queue) s =
    collect_recipients isdelete v (s.pool.store v).recipient s >>= λ a.
    collect_queue isdelete queue a.1 >>= λ b. some (keep a.0 v b.0, b.1)
