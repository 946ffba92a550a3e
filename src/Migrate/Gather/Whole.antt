-- ===== src/Migrate/Gather/Whole.antt =====
-- `handleAnns` without the full lock: what each account takes along to its new shard.
use block_preempt.Prelude.{
  ℕ, ◌≡◌, refl, sym, ap, ◌∙◌, Bool, true, false, some, List, [], ◌∷◌, ◌++◌, if◌then◌else◌,
  Bool-cases, inl, inr,
}
use block_preempt.Prelude.Int.{ℤ}
use block_preempt.Params.{ChainConfig}
use block_preempt.Account.Hex.{Str}
use block_preempt.Account.Table.{lookup}
use block_preempt.Core.Transaction.{Transaction2}
use block_preempt.Core.Migration.{TxAnn}
use block_preempt.Core.TxPool.{Ref, TxPool}
use block_preempt.Migrate.{Caps, entry, pending, has_entry}
use block_preempt.Migrate.Under.{AllUnder}
use block_preempt.Migrate.Collect.{IsDelete, Collecting}
use block_preempt.Migrate.Collect.Places.{Place, leaves_with}
use block_preempt.Migrate.Collect.Partition.{
  Registered, has_entry-some, staying, leaving, collect_queue-partition,
}
use block_preempt.Migrate.Collect.Keeps.{collect_queue-AllUnder}
use block_preempt.Migrate.Anns.{AccountTables, Leaving}
use block_preempt.Migrate.Anns.Leavers.{target, still_own, or_else-none}
use block_preempt.Migrate.Anns.Opened.{IsOpened, announcements-IsOpened}
use block_preempt.Migrate.Gather.{gather_waiting, gather_queue, gather_after, handle_anns}
use block_preempt.Migrate.Gather.Entries.{with_more, gather-entry, gather-AllUnder}

-- With which account, and for which shard, an object leaves.
abbrev pub place_of : IsDelete → (Ref → Transaction2) → Ref → Place
place_of isdelete store v = leaves_with isdelete (store v)

-- The account leaves for shard `t`, with these transactions in its entry.
abbrev pub Takes : Leaving → (Str → Str → List Ref) → Type 0
Takes s txs = (a t : Str) → lookup s.isdelete a ≡ some t → entry s.caps t a ≡ some (txs t a)

-- The half lock's pool of waiting transactions, where there is the half lock.
abbrev pub waiting : ChainConfig → TxPool → Str → List Ref
waiting c pool a = if c.stop_when_migrating then [] else pool.outing_before_announce_tx_pools a

gather_waiting-Takes :
    (c : ChainConfig) (s : Leaving)
    → c.lock_acc_when_migrating ≡ false
    → IsOpened s
    → let s' = gather_waiting c s in
      Takes s' (λ t a. waiting c s.pool a)
      × AllUnder s'.isdelete s'.caps
      × (s'.isdelete ≡ s.isdelete)
      × (s'.pool.queue ≡ s.pool.queue)
      × (s'.pool.store ≡ s.pool.store)
      × (s'.tables ≡ s.tables)
      × (s'.pool.outing_after_announce_tx_pools ≡ s.pool.outing_after_announce_tx_pools)
unfolding gather_waiting
gather_waiting-Takes c s unlocked (empty, under, gone) = elim (Bool-cases c.stop_when_migrating) [
  | inl e ↦ simp (unlocked, e) (empty, under, refl, refl, refl, refl, refl)
  | inr e ↦
      let pools = s.pool.outing_before_announce_tx_pools in
      simp (unlocked, e)
        (
          λ a t l.
              gather-entry s.isdelete s.caps pools t a under l
              ∙ ap (λ o. with_more o (pools a)) (empty a t l),
          gather-AllUnder s.isdelete s.caps pools under,
          refl,
          refl,
          refl,
          refl,
          refl,
        )
]

entry-pending :
    (caps : Caps) (t a : Str) → has_entry caps t a ≡ true → entry caps t a ≡ some (pending caps t a)
entry-pending caps t a h = let (txs, e) = has_entry-some caps t a h in rw (e, pending) refl

gather_queue-Takes :
    (s : Leaving) (txs : Str → Str → List Ref)
    → Takes s txs
    → AllUnder s.isdelete s.caps
    → let place = place_of s.isdelete s.pool.store in
      (s' : Leaving) × (gather_queue s ≡ some s')
      × Takes s' (λ t a. txs t a ++ leaving place t a s.pool.queue)
      × AllUnder s'.isdelete s'.caps
      × (s'.isdelete ≡ s.isdelete)
      × (s'.tables ≡ s.tables)
      × (s'.pool.queue ≡ staying place s.pool.queue)
      × (s'.pool.outing_after_announce_tx_pools ≡ s.pool.outing_after_announce_tx_pools)
unfolding gather_queue
gather_queue-Takes s txs takes under =
    let registered : Registered s.isdelete s.caps = λ a t l. rw (takes a t l, has_entry) refl in
    let from : Collecting = record { pool = s.pool; caps = s.caps } in
    let (kept, r, e, stays, goes, reg, only) =
      collect_queue-partition s.isdelete s.pool.queue from registered in
    (
      record s { caps = r.caps; pool = record r.pool { queue = kept } },
      rw e refl,
      λ a t l.
          entry-pending r.caps t a (reg a t l)
          ∙ ap some (goes t a ∙ rw (takes a t l, pending) refl),
      collect_queue-AllUnder s.isdelete s.pool.queue from (kept, r) under e,
      refl,
      refl,
      stays,
      rw only refl,
    )

three_parts :
    (w b z : List Ref) {w' b' z' : List Ref}
    → w ≡ w'
    → b ≡ b'
    → z ≡ z'
    → w ++ b ++ z ≡ w' ++ b' ++ z'
three_parts w b z e e' e'' = rw (sym e) (rw (sym e') (rw (sym e'') refl))

-- Without the full lock handleAnns does not panic. The accounts that leave are those of the shard that an
-- announcement names, each for the shard of its first announcement; they, and no others, stop being
-- accounts of the shard. An account that leaves takes along, in this order: what the half lock held back
-- for it, what of the queue is its own, and what came after the announcement. The queue keeps, in order,
-- the transactions that no account takes along.
pub handle_anns-takes :
    (now : ℕ → ℤ) (grows : List Ref → Bool) (c : ChainConfig) (names : ℤ → Str) (ann : TxAnn)
    (anns : List TxAnn) (pool : TxPool) (tables : AccountTables)
    → c.lock_acc_when_migrating ≡ false
    → (s : Leaving) × (handle_anns now grows c names (ann ∷ anns) pool tables ≡ some s)
      × (let place = place_of s.isdelete pool.store in
          let leaves_for = target tables.shards.account_in_own_shard names (ann ∷ anns) in
          ((a : Str) → lookup s.isdelete a ≡ leaves_for a)
          × ((a : Str)
              → s.tables.shards.account_in_own_shard a
                ≡ still_own (leaves_for a) (tables.shards.account_in_own_shard a))
          × (s.pool.queue ≡ staying place pool.queue)
          × ((a t : Str)
              → leaves_for a ≡ some t
              → entry s.caps t a
                ≡ some (
                    waiting c pool a
                    ++ leaving place t a pool.queue
                    ++ pool.outing_after_announce_tx_pools a)))
unfolding handle_anns gather_after
handle_anns-takes now grows c names ann anns pool tables unlocked =
    let s₀ : Leaving = record { pool = pool; tables = tables; isdelete = []; caps = [] } in
    let (s₁, e₁, h₁, (del₁, own₁), p₁) =
      announcements-IsOpened now grows c names unlocked (ann ∷ anns) s₀
        (λ a t l. cc, tt, λ a t l. cc) in
    let (takes₂, under₂, d₂, q₂, st₂, t₂, o₂) = gather_waiting-Takes c s₁ unlocked h₁ in
    let s₂ = gather_waiting c s₁ in
    let (s₃, e₃, takes₃, under₃, d₃, t₃, q₃, o₃) =
      gather_queue-Takes s₂ (λ t a. waiting c s₁.pool a) takes₂ under₂ in
    let same : place_of s₂.isdelete s₂.pool.store ≡ place_of s₃.isdelete pool.store =
      ap (λ d. place_of d s₂.pool.store) (sym d₃)
      ∙ ap (place_of s₃.isdelete) (st₂ ∙ ap (λ p. p.store) p₁) in
    let leaves_for = target tables.shards.account_in_own_shard names (ann ∷ anns) in
    let decided : (a : Str) → lookup s₃.isdelete a ≡ leaves_for a =
      λ a. ap (λ d. lookup d a) (d₃ ∙ d₂) ∙ del₁ a ∙ or_else-none (leaves_for a) in
    (
      gather_after s₃,
      rw e₁ (rw e₃ refl),
      (
        decided,
        λ a. ap (λ t. t.shards.account_in_own_shard a) (t₃ ∙ t₂) ∙ own₁ a,
        q₃
            ∙ ap (λ f. staying f s₂.pool.queue) same
            ∙ ap (staying (place_of s₃.isdelete pool.store)) (q₂ ∙ ap (λ p. p.queue) p₁),
        λ a t l.
            let after = s₃.pool.outing_after_announce_tx_pools in
            gather-entry s₃.isdelete s₃.caps after t a under₃ (decided a ∙ l)
            ∙ ap (λ o. with_more o (after a)) (takes₃ a t (decided a ∙ l))
            ∙ ap some (
                three_parts (waiting c s₁.pool a)
                  (leaving (place_of s₂.isdelete s₂.pool.store) t a s₂.pool.queue) (after a)
                  (ap (λ p. waiting c p a) p₁)
                  (ap (λ f. leaving f t a s₂.pool.queue) same
                    ∙ ap (leaving (place_of s₃.isdelete pool.store) t a)
                        (q₂ ∙ ap (λ p. p.queue) p₁))
                  (ap (λ f. f a) (o₃ ∙ o₂ ∙ ap (λ p. p.outing_after_announce_tx_pools) p₁))),
      ),
    )
