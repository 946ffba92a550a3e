-- ===== src/Migrate/Receive.antt =====
-- pbft/pbft.go and PBFTforMigrate.go: `handleChangesAndPendings` and `handleBankAggTX`, with which the
-- leader of the target shard takes what a migration brings. A transaction of a message is a new object.
use mathlib.Core.List.{append_assoc, append-nil}
use block_preempt.Prelude.{
  ℕ, suc, ◌+◌, ◌<◌, ◌≤◌, ◌≡◌, refl, sym, ap, ◌∙◌, true, false, List, [], ◌∷◌, ◌++◌, map, length,
  length-append, ◌==◌, if◌then◌else◌, arith,
}
use block_preempt.Params.{ChainConfig}
use block_preempt.Account.Hex.{Str}
use block_preempt.Core.Transaction.{Transaction2}
use block_preempt.Core.Migration.{TxNs}
use block_preempt.Core.Pools.{add_all}
use block_preempt.Core.Pools.Fetch.{add_all-append}
use block_preempt.Core.TxPool.{Ref, TxPool, add_tx, write_ref}
use block_preempt.Core.TxPool.Bank.{add_bank_agg_txs}
use block_preempt.Core.TxPool.Plain.{==_refl}

-- `new(T)` of the decoder: `tx` becomes the object at `next_ref`.
abbrev pub decoded : TxPool → Transaction2 → TxPool
decoded pool tx =
    let p = write_ref pool pool.next_ref tx in record p { next_ref = suc pool.next_ref }

abbrev pub succeed : Transaction2 → Transaction2
succeed tx = record tx { success = true }

unfoldable pub receive_pendings : List Transaction2 → TxPool → TxPool
unfolding add_tx
receive_pendings [] pool = pool
receive_pendings (tx ∷ txs) pool =
    receive_pendings txs (add_tx (decoded pool (succeed tx)) pool.next_ref)

unfoldable pub receive_list : List (Str × List Transaction2) → TxPool → TxPool
unfolding receive_pendings
receive_list [] pool = pool
receive_list ((addr, txs) ∷ rest) pool = receive_list rest (receive_pendings txs pool)

-- The pool, the TXns pool, and the number of accounts, which the client is told.
unfoldable pub handle_changes_and_pendings :
    ChainConfig
    → List TxNs
    → List (Str × List Transaction2)
    → TxPool
    → List TxNs
    → TxPool × List TxNs × ℕ
unfolding receive_list add_all
handle_changes_and_pendings c nss caps pool txns_pool = (
  receive_list caps pool,
  if c.lock_acc_when_migrating then txns_pool else add_all txns_pool nss,
  length caps,
)

unfoldable pub handle_bank_agg_tx : Str → Transaction2 → TxPool → TxPool
unfolding add_bank_agg_txs
handle_bank_agg_tx addr tx pool = add_bank_agg_txs addr (pool.next_ref ∷ []) (decoded pool tx)

abbrev pub all_txs : List (Str × List Transaction2) → List Transaction2
all_txs [] = []
all_txs ((addr, txs) ∷ rest) = txs ++ all_txs rest

abbrev pub AllLess : ℕ → List Ref → Type 0
AllLess n [] = Unit
AllLess n (r ∷ refs) = (r < n) × AllLess n refs

-- New objects for `txs` at the end of the queue, and the objects from before as they were.
abbrev pub Receives : List Transaction2 → TxPool → TxPool → Type 0
Receives txs pool pool' =
    (refs : List Ref) × (pool'.queue ≡ pool.queue ++ refs)
    × (map pool'.store refs ≡ map succeed txs)
    × (pool'.next_ref ≡ pool.next_ref + length txs)
    × ((q : Ref) → q < pool.next_ref → pool'.store q ≡ pool.store q)
    × AllLess pool'.next_ref refs

receive_pendings-Receives :
    (txs : List Transaction2) (pool : TxPool) → Receives txs pool (receive_pendings txs pool)
unfolding receive_pendings add_tx
receive_pendings-Receives [] pool =
    ([], sym (append-nil pool.queue), refl, omega arith, λ q h. refl, tt)
receive_pendings-Receives (tx ∷ txs) pool =
    let v = pool.next_ref in
    let (refs, queued, objects, next, old, less) =
      receive_pendings-Receives txs (add_tx (decoded pool (succeed tx)) v) in
    (
      v ∷ refs,
      queued ∙ append_assoc pool.queue (v ∷ []) refs,
      ap (λ t. t ∷ map (receive_pendings (tx ∷ txs) pool).store refs)
            (old v (omega arith) ∙ rw (==_refl v) refl)
          ∙ ap (λ l. succeed tx ∷ l) objects,
      next ∙ omega arith,
      λ q h. old q (omega arith) ∙ (let e : (v == q) ≡ false = ground arith in rw e refl),
      (omega (arith, next), less),
    )

AllLess-append :
    (n m : ℕ) (xs ys : List Ref) → n ≤ m → AllLess n xs → AllLess m ys → AllLess m (xs ++ ys)
AllLess-append n m [] ys le h h' = h'
AllLess-append n m (x ∷ xs) ys le (h, hs) h' = (omega arith, AllLess-append n m xs ys le hs h')

map_below :
    (f g : Ref → Transaction2) (n : ℕ) (refs : List Ref)
    → AllLess n refs
    → ((q : Ref) → q < n → f q ≡ g q)
    → map f refs ≡ map g refs
map_below f g n [] h e = refl
map_below f g n (r ∷ refs) (h, hs) e =
    ap (λ t. t ∷ map f refs) (e r h) ∙ ap (λ l. g r ∷ l) (map_below f g n refs hs e)

map_append : {A B : Type 0} (f : A → B) (xs ys : List A) → map f (xs ++ ys) ≡ map f xs ++ map f ys
map_append f [] ys = refl
map_append f (x ∷ xs) ys = ap (λ l. f x ∷ l) (map_append f xs ys)

receive_list-Receives :
    (caps : List (Str × List Transaction2)) (pool : TxPool)
    → Receives (all_txs caps) pool (receive_list caps pool)
unfolding receive_list
receive_list-Receives [] pool =
    ([], sym (append-nil pool.queue), refl, omega arith, λ q h. refl, tt)
receive_list-Receives ((addr, txs) ∷ rest) pool =
    let p₁ = receive_pendings txs pool in
    let p₂ = receive_list rest p₁ in
    let (refs₁, queued₁, objects₁, next₁, old₁, less₁) = receive_pendings-Receives txs pool in
    let (refs₂, queued₂, objects₂, next₂, old₂, less₂) = receive_list-Receives rest p₁ in
    (
      refs₁ ++ refs₂,
      queued₂ ∙ ap (λ l. l ++ refs₂) queued₁ ∙ append_assoc pool.queue refs₁ refs₂,
      map_append p₂.store refs₁ refs₂
          ∙ ap (λ l. l ++ map p₂.store refs₂)
              (map_below p₂.store p₁.store p₁.next_ref refs₁ less₁ old₂ ∙ objects₁)
          ∙ ap (λ l. map succeed txs ++ l) objects₂
          ∙ sym (map_append succeed txs (all_txs rest)),
      next₂ ∙ omega (arith, next₁, length-append txs (all_txs rest)),
      λ q h. old₂ q (omega (arith, next₁)) ∙ old₁ q h,
      AllLess-append p₁.next_ref p₂.next_ref refs₁ refs₂ (omega (arith, next₂)) less₁ less₂,
    )

-- The leader of the target shard takes every transaction that a message brings to the end of its queue,
-- as a new object that is marked as successful, account by account and in order; the objects that it
-- had are as before. Without the full lock the changes of balance go to the end of its TXns pool.
pub handle_changes_and_pendings-Receives :
    (c : ChainConfig) (nss : List TxNs) (caps : List (Str × List Transaction2)) (pool : TxPool)
    (txns_pool : List TxNs)
    → let r = handle_changes_and_pendings c nss caps pool txns_pool in
      Receives (all_txs caps) pool r.0
      × (r.1 ≡ (if c.lock_acc_when_migrating then txns_pool else txns_pool ++ nss))
unfolding handle_changes_and_pendings
handle_changes_and_pendings-Receives c nss caps pool txns_pool = (
  receive_list-Receives caps pool,
  ap (λ l. if c.lock_acc_when_migrating then txns_pool else l) (add_all-append txns_pool nss),
)
