-- ===== src/Migrate/Examples.antt =====
-- A migration on small inputs.
use block_preempt.Prelude.{
  ℕ, ◌+◌, ◌<◌, ◌≡◌, refl, sym, ◌||◌, ◌&&◌, true, false, none, some, List, [], ◌∷◌, ◌++◌, arith,
}
use block_preempt.Prelude.Int.{pos}
use block_preempt.Account.Hex.{Str, hex}
use block_preempt.Account.Table.{lookup}
use block_preempt.Account.Shards.{eq_ℤ}
use block_preempt.Core.Transaction.{Transaction2, mtx2totx1}
use block_preempt.Core.Transaction.Splitting.{all_payments, AllFrom}
use block_preempt.Core.Migration.{TxMig2, TxAnn}
use block_preempt.Core.TxPool.{Ref}
use block_preempt.Migrate.{pending, entry}
use block_preempt.Migrate.Collect.{Collecting, collect_queue}
use block_preempt.Migrate.Collect.Partition.{
  Registered, place_in, staying, leaving, collect_queue-partition,
}
use block_preempt.Migrate.Anns.{Leaving, release_waiting}
use block_preempt.Migrate.Anns.Leavers.{target, still_own}
use block_preempt.Migrate.Anns.Release.{release_waiting-overruns}
use block_preempt.Migrate.Gather.{handle_anns}
use block_preempt.Migrate.Gather.Whole.{place_of, waiting, handle_anns-takes}
use block_preempt.Migrate.Aggregate.{Store, join_pending}
use block_preempt.Migrate.Aggregate.Payments.{pays, join_pending-pays}
use block_preempt.Migrate.Messages.{
  try_txmig1, handle_mig2, try_announce, Announcing, handle_announce,
}
use block_preempt.Migrate.Messages.Handshake.{
  made_for, try_txmig1-handle_mig2, Tells, announced, try_announce-handle_announce,
}
use block_preempt.Migrate.Receive.{
  Receives, handle_changes_and_pendings, handle_changes_and_pendings-Receives,
}
use block_preempt.Migrate.Sure.{sends, receives, Epoch, run_sures, run_sures-barrier}
use block_preempt.Migrate.Samples.{
  shipped, mover, shard_1, names, own_payment, foreign_payment, incoming, store, pool, tables,
  state_of, request, taken, sample_ann, one_entry,
}

abbrev collecting : Collecting
collecting = record { pool = pool; caps = (shard_1, (mover, []) ∷ []) ∷ [] }

collect_queue-partition_example :
    (kept : List Ref) × (s' : Collecting) × (collect_queue
        ((mover, shard_1) ∷ [])
        (0 ∷ 1 ∷ 2 ∷ [])
        collecting
      ≡ some (kept, s'))
    × (kept ≡ staying (place_in ((mover, shard_1) ∷ []) collecting) (0 ∷ 1 ∷ 2 ∷ []))
    × ((t a : Str)
        → pending s'.caps t a
          ≡ pending collecting.caps t a
            ++ leaving (place_in ((mover, shard_1) ∷ []) collecting) t a (0 ∷ 1 ∷ 2 ∷ []))
    × Registered ((mover, shard_1) ∷ []) s'.caps
    × (s'.pool ≡ record pool { store = s'.pool.store })
collect_queue-partition_example =
    collect_queue-partition ((mover, shard_1) ∷ []) (0 ∷ 1 ∷ 2 ∷ []) collecting (λ addr shard e.
      let (a, t) = one_entry mover shard_1 addr shard e in rw (sym a) (rw (sym t) refl))

handle_anns-takes_example :
    (s : Leaving) × (handle_anns
        (λ k. pos k)
        (λ l. true)
        shipped
        names
        (sample_ann ∷ [])
        pool
        tables
      ≡ some s)
    × (let place = place_of s.isdelete store in
        let leaves_for = target (λ a. true) names (sample_ann ∷ []) in
        ((a : Str) → lookup s.isdelete a ≡ leaves_for a)
        × ((a : Str) → s.tables.shards.account_in_own_shard a ≡ still_own (leaves_for a) true)
        × (s.pool.queue ≡ staying place (0 ∷ 1 ∷ 2 ∷ []))
        × ((a t : Str)
            → leaves_for a ≡ some t
            → entry s.caps t a
              ≡ some (waiting shipped pool a ++ leaving place t a (0 ∷ 1 ∷ 2 ∷ []) ++ [])))
handle_anns-takes_example =
    handle_anns-takes (λ k. pos k) (λ l. true) shipped names sample_ann [] pool tables refl

join_pending-pays_example :
    (store' : Store) × (join_pending (0 ∷ 1 ∷ []) store ≡ some (0 ∷ [], store'))
    × (pays (store' 0) ≡ all_payments (own_payment ∷ foreign_payment ∷ []))
    × ((txs : List Transaction2) × (mtx2totx1 (store' 0) ≡ some txs)
        × (all_payments txs ≡ all_payments (own_payment ∷ foreign_payment ∷ []))
        × AllFrom (1 ∷ []) txs)
join_pending-pays_example =
    join_pending-pays 0 1 [] store ((λ e. omega (arith, e)), tt) (refl, (refl, tt))

try_txmig1-handle_mig2_example :
    (sent : ℕ → List TxMig2) × (try_txmig1
        (λ v. [])
        (λ a. [])
        (λ a. some state_of)
        shipped
        (pos 0)
        (λ a. some (pos 9))
        (request ∷ [])
        1
        []
      ≡ some (sent, []))
    × ((k : ℕ) (m : TxMig2) (ms : List TxMig2) (queue : List TxMig2)
        → eq_ℤ (pos k) (pos 0) ≡ false
        → made_for
            (λ v. [])
            (λ a. [])
            (λ a. some state_of)
            shipped
            (pos 0)
            (λ a. some (pos 9))
            taken
            (λ v. 1)
            k
            (request ∷ [])
          ≡ m ∷ ms
        → handle_mig2 (sent k) queue
          ≡ some (
              queue
              ++ made_for
                  (λ v. [])
                  (λ a. [])
                  (λ a. some state_of)
                  shipped
                  (pos 0)
                  (λ a. some (pos 9))
                  taken
                  (λ v. 1)
                  k
                  (request ∷ [])))
try_txmig1-handle_mig2_example =
    try_txmig1-handle_mig2 (λ v. []) (λ a. []) (λ a. some state_of) shipped (pos 0)
      (λ a. some (pos 9)) taken (λ v. 1) (request ∷ []) 1 [] refl ((refl, refl, omega arith), tt)

try_announce-handle_announce_example :
    (anns : List TxAnn) × (try_announce
        (λ v. [])
        (λ a. [])
        (λ a. some state_of)
        (pos 1)
        (taken request ∷ [])
      ≡ some anns)
    × Tells (λ v. []) (λ a. []) (λ a. some state_of) (pos 1) (taken request ∷ []) anns
    × ((s : Announcing)
        → let s' = handle_announce anns s in
          (s'.txann_pool ≡ s.txann_pool ++ anns)
          × (s'.tables.shards ≡ s.tables.shards)
          × ((a : Str)
              → s'.tables.outing_after_announce a ≡ (
                  s.tables.outing_after_announce a
                  || s.tables.shards.account_in_own_shard a && announced anns a)))
try_announce-handle_announce_example =
    try_announce-handle_announce (λ v. []) (λ a. []) (λ a. some state_of) (pos 1)
      (taken request ∷ []) ((state_of, refl), tt)

handle_changes_and_pendings-Receives_example :
    (let r =
        handle_changes_and_pendings shipped []
          ((mover, own_payment ∷ incoming ∷ []) ∷ [])
          pool
          [] in
      Receives (own_payment ∷ incoming ∷ []) pool r.0 × (r.1 ≡ []))
handle_changes_and_pendings-Receives_example =
    handle_changes_and_pendings-Receives shipped [] ((mover, own_payment ∷ incoming ∷ []) ∷ []) pool
      []

abbrev changing : Epoch
changing = record { sure_count = 0; epoch_locked = true }

run_sures-barrier_example :
    (0 + 2 < 2
      → run_sures 2 (receives 1 ∷ sends ∷ []) changing
        ≡ some (record { sure_count = 0 + 2; epoch_locked = true }))
    × (0 + 2 ≡ 2
        → run_sures 2 (receives 1 ∷ sends ∷ []) changing
          ≡ some (record { sure_count = 0; epoch_locked = false }))
run_sures-barrier_example =
    run_sures-barrier 2 (receives 1 ∷ sends ∷ []) changing refl (omega arith)

release_waiting-overruns_example :
    release_waiting (λ k. pos k) (λ l. true) [] (λ a. false) mover pool ≡ none
unfolding hex
release_waiting-overruns_example =
    release_waiting-overruns (λ k. pos k) (λ l. true) [] (λ a. false) mover pool 1 [] refl
      (refl, (refl, (refl, tt))) (omega arith)
