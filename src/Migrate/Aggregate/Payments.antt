-- ===== src/Migrate/Aggregate/Payments.antt =====
-- What the joined transaction pays.
use mathlib.Core.List.{append_assoc, append-nil}
use block_preempt.Prelude.{
  suc, ◌≡◌, refl, sym, subst, ap, ◌∙◌, ◌≢◌, some, List, [], ◌∷◌, ◌++◌, map, length, length-append,
  arith,
}
use block_preempt.Prelude.Int.{ℤ}
use block_preempt.Trie.Nibbles.{Bytes}
use block_preempt.Core.Transaction.{Transaction2, mtx2totx1}
use block_preempt.Core.Transaction.Splitting.{payments, all_payments, AllFrom, mtx2totx1-payments}
use block_preempt.Core.TxPool.{Ref}
use block_preempt.Migrate.Aggregate.{Store, join_txs, join_pending}
use block_preempt.Migrate.Aggregate.Steps.{
  IsValued, AllValued, Absent, Extends, join_recipients-Extends,
}

payments-append :
    (rs rs' : List Bytes) (vs vs' : List ℤ)
    → length rs ≡ length vs
    → payments (rs ++ rs') (vs ++ vs') ≡ payments rs vs ++ payments rs' vs'
payments-append [] rs' [] vs' e = refl
payments-append [] rs' (v ∷ vs) vs' e = let z : 0 ≡ suc (length vs) = e in absurd (omega (arith, z))
payments-append (r ∷ rs) rs' [] vs' e = let z : suc (length rs) ≡ 0 = e in absurd (omega (arith, z))
payments-append (r ∷ rs) rs' (v ∷ vs) vs' e =
    ap (λ l. (r, v) ∷ l) (payments-append rs rs' vs vs' (omega (arith, e)))

abbrev pub pays : Transaction2 → List (Bytes × ℤ)
pays tx = payments tx.recipient tx.value

-- The objects of a list, which the writes to another object leave alone.
map-ext :
    (store store' : Store) (first : Ref) (vs : List Ref)
    → Absent first vs
    → ((q : Ref) → first ≢ q → store' q ≡ store q)
    → map store' vs ≡ map store vs
map-ext store store' first [] h same = refl
map-ext store store' first (v ∷ vs) (h, hs) same =
    rw (same v h) (ap (λ l. store v ∷ l) (map-ext store store' first vs hs same))

AllValued-ext :
    (store store' : Store) (first : Ref) (vs : List Ref)
    → Absent first vs
    → ((q : Ref) → first ≢ q → store' q ≡ store q)
    → AllValued store vs
    → AllValued store' vs
AllValued-ext store store' first [] h same valued = tt
AllValued-ext store store' first (v ∷ vs) (h, hs) same (valued, more) =
    (subst IsValued (sym (same v h)) valued, AllValued-ext store store' first vs hs same more)

-- The object `first` with all the payments, and the others as they were.
abbrev Joins : Ref → List (Bytes × ℤ) → Store → Store → Type 0
Joins first paid store store' =
    IsValued (store' first)
    × (pays (store' first) ≡ pays (store first) ++ paid)
    × ((store' first).sender ≡ (store first).sender)
    × ((q : Ref) → first ≢ q → store' q ≡ store q)

Extends-Joins :
    (first v : Ref) (store store' : Store)
    → IsValued (store first)
    → IsValued (store v)
    → Extends first (store v).recipient (store v).value store store'
    → Joins first (pays (store v)) store store'
Extends-Joins first v store store' valued valued' (h₁, h₂, h₃, h₄) =
    let f = store first in
    let tx = store v in
    (
      ap length h₁
          ∙ length-append f.recipient tx.recipient
          ∙ omega (arith, valued, valued')
          ∙ sym (length-append f.value tx.value)
          ∙ sym (ap length h₂),
      ap (λ l. payments l (store' first).value) h₁
          ∙ ap (payments (f.recipient ++ tx.recipient)) h₂
          ∙ payments-append f.recipient tx.recipient f.value tx.value valued,
      h₃,
      h₄,
    )

join_txs-Joins :
    (first : Ref) (vs : List Ref) (store : Store)
    → IsValued (store first)
    → Absent first vs
    → AllValued store vs
    → (store' : Store) × (join_txs first vs store ≡ some store')
      × Joins first (all_payments (map store vs)) store store'
unfolding join_txs
join_txs-Joins first [] store valued absent more =
    (store, refl, (valued, sym (append-nil (pays (store first))), refl, λ q h. refl))
join_txs-Joins first (v ∷ vs) store valued (ne, absent) (valued', more) =
    let (store₁, e₁, extends) =
      join_recipients-Extends first v (length (store v).recipient) 0 store ne valued'
        (omega arith) in
    let (valued₁, paid₁, sender₁, same₁) =
      Extends-Joins first v store store₁ valued valued' extends in
    let (store₂, e₂, (valued₂, paid₂, sender₂, same₂)) =
      join_txs-Joins first vs store₁ valued₁ absent
        (AllValued-ext store store₁ first vs absent same₁ more) in
    (
      store₂,
      rw e₁ e₂,
      (
        valued₂,
        paid₂
            ∙ ap (λ l. l ++ all_payments (map store₁ vs)) paid₁
            ∙ append_assoc (pays (store first)) (pays (store v)) (all_payments (map store₁ vs))
            ∙ ap (λ l. pays (store first) ++ (pays (store v) ++ all_payments l))
                (map-ext store store₁ first vs absent same₁),
        sender₂ ∙ sender₁,
        λ q h. same₂ q h ∙ same₁ q h,
      ),
    )

-- Where an account takes along two transactions or more, each with a value for each recipient, and the
-- first is not among the others: they are joined into the first, which keeps its sender and pays what
-- all of them pay, in order. Splitting it gives single payments that are those of all of them, and every
-- one of these is from the sender of the first, whoever the senders of the others are.
pub join_pending-pays :
    (v w : Ref) (rest : List Ref) (store : Store)
    → Absent v (w ∷ rest)
    → AllValued store (v ∷ w ∷ rest)
    → let all = all_payments (map store (v ∷ w ∷ rest)) in
      (store' : Store) × (join_pending (v ∷ w ∷ rest) store ≡ some (v ∷ [], store'))
      × (pays (store' v) ≡ all)
      × ((txs : List Transaction2) × (mtx2totx1 (store' v) ≡ some txs)
          × (all_payments txs ≡ all)
          × AllFrom (store v).sender txs)
unfolding join_pending
join_pending-pays v w rest store absent (valued, more) =
    let (store', e, (valued', paid, sender, same)) =
      join_txs-Joins v (w ∷ rest) store valued absent more in
    let (txs, split, splits, from) = mtx2totx1-payments (store' v) (omega (arith, valued')) in
    (store', rw e refl, paid, (txs, split, splits ∙ paid, subst (λ s. AllFrom s txs) sender from))
