-- ===== src/Migrate/Aggregate/Steps.antt =====
-- What one transaction adds to the one that it is joined into.
use mathlib.Core.List.{append_assoc, append-nil}
use block_preempt.Prelude.{
  ℕ, zero, suc, ◌+◌, ◌<◌, ◌≡◌, refl, sym, subst, ap, ◌∙◌, ◌≢◌, false, some, List, [], ◌∷◌, ◌++◌,
  length, get_elem?, drop, ◌==◌, arith,
}
use block_preempt.Prelude.Int.{ℤ}
use block_preempt.Trie.Nibbles.{Bytes}
use block_preempt.Core.Transaction.{Transaction2}
use block_preempt.Core.TxPool.{Ref}
use block_preempt.Core.TxPool.Plain.{==_refl}
use block_preempt.Migrate.Aggregate.{Store, assign_ref, join_recipients}

-- A value for each recipient.
abbrev pub IsValued : Transaction2 → Type 0
IsValued tx = length tx.recipient ≡ length tx.value

abbrev pub AllValued : Store → List Ref → Type 0
AllValued store [] = Unit
AllValued store (v ∷ vs) = IsValued (store v) × AllValued store vs

abbrev pub Absent : Ref → List Ref → Type 0
Absent v [] = Unit
Absent v (w ∷ ws) = (v ≢ w) × Absent v ws

drop-elem :
    {A : Type 0} (xs : List A) (j : ℕ)
    → j < length xs
    → (x : A) × (get_elem? xs j ≡ some x) × (drop j xs ≡ x ∷ drop (suc j) xs)
drop-elem [] j h = absurd (omega arith)
drop-elem (x ∷ xs) zero h = (x, refl, refl)
drop-elem (x ∷ xs) (suc j) h = drop-elem xs j (omega arith)

-- `first` with more recipients and values, and the other objects as they were.
abbrev pub Extends : Ref → List Bytes → List ℤ → Store → Store → Type 0
Extends first rs vs store store' =
    ((store' first).recipient ≡ (store first).recipient ++ rs)
    × ((store' first).value ≡ (store first).value ++ vs)
    × ((store' first).sender ≡ (store first).sender)
    × ((q : Ref) → first ≢ q → store' q ≡ store q)

drop_end : {A : Type 0} (xs : List A) (j : ℕ) → length xs ≡ j → drop j xs ≡ []
drop_end [] j e = rw (sym e) refl
drop_end (x ∷ xs) zero e = let z : suc (length xs) ≡ 0 = e in absurd (omega (arith, z))
drop_end (x ∷ xs) (suc j) e = drop_end xs j (omega (arith, e))

assign_ref_self : (store : Store) (v : Ref) (tx : Transaction2) → assign_ref store v tx v ≡ tx
assign_ref_self store v tx = rw (==_refl v) refl

assign_ref_ne :
    (store : Store) (v q : Ref) (tx : Transaction2) → v ≢ q → assign_ref store v tx q ≡ store q
assign_ref_ne store v q tx ne = let e : (v == q) ≡ false = ground arith in rw e refl

-- One step, and the rest of the list behind it.
grown :
    {A : Type 0} (xs : List A) (x : A) (ys zs : List A)
    → zs ≡ x ∷ ys
    → xs ++ x ∷ [] ++ ys ≡ xs ++ zs
grown xs x ys zs e = append_assoc xs (x ∷ []) ys ∙ ap (λ l. xs ++ l) (sym e)

pub join_recipients-Extends :
    (first v : Ref) (k j : ℕ) (store : Store)
    → first ≢ v
    → IsValued (store v)
    → j + k ≡ length (store v).recipient
    → (store' : Store) × (join_recipients first v k j store ≡ some store')
      × Extends first (drop j (store v).recipient) (drop j (store v).value) store store'
unfolding join_recipients
join_recipients-Extends first v zero j store ne valued e =
    let f = store first in
    (
      store,
      refl,
      (
        sym (append-nil f.recipient)
            ∙ ap (λ l. f.recipient ++ l) (sym (drop_end (store v).recipient j (omega (arith, e)))),
        sym (append-nil f.value)
            ∙ ap (λ l. f.value ++ l) (sym (drop_end (store v).value j (omega (arith, e, valued)))),
        refl,
        λ q h. refl,
      ),
    )
join_recipients-Extends first v (suc k) j store ne valued e =
    let f = store first in
    let tx = store v in
    let (r, er, dr) = drop-elem tx.recipient j (omega arith) in
    let (x, ex, dx) = drop-elem tx.value j (omega (arith, valued)) in
    let f₁ : Transaction2 = record f {
      recipient = f.recipient ++ r ∷ [];
      value = f.value ++ x ∷ [];
    } in
    let store₁ = assign_ref store first f₁ in
    let self : store₁ first ≡ f₁ = assign_ref_self store first f₁ in
    let same : store₁ v ≡ tx = assign_ref_ne store first v f₁ ne in
    let (store', done, (h₁, h₂, h₃, h₄)) =
      join_recipients-Extends first v k (suc j) store₁ ne (subst IsValued (sym same) valued)
        (subst (λ t. suc j + k ≡ length t.recipient) (sym same) (omega arith)) in
    (
      store',
      rw er (rw ex done),
      (
        h₁
            ∙ ap (λ t. t.recipient ++ drop (suc j) (store₁ v).recipient) self
            ∙ ap (λ t. f₁.recipient ++ drop (suc j) t.recipient) same
            ∙ grown f.recipient r (drop (suc j) tx.recipient) (drop j tx.recipient) dr,
        h₂
            ∙ ap (λ t. t.value ++ drop (suc j) (store₁ v).value) self
            ∙ ap (λ t. f₁.value ++ drop (suc j) t.value) same
            ∙ grown f.value x (drop (suc j) tx.value) (drop j tx.value) dx,
        h₃ ∙ ap (λ t. t.sender) self,
        λ q h. h₄ q h ∙ assign_ref_ne store first q f₁ h,
      ),
    )
