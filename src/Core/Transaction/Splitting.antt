-- ===== src/Core/Transaction/Splitting.antt =====
-- The single transactions carry what the aggregated one did.
use block_preempt.Prelude.{◌≤◌, ◌≡◌, refl, ap, some, List, [], ◌∷◌, ◌++◌, length, arith}
use block_preempt.Prelude.Int.{ℤ}
use block_preempt.Trie.Nibbles.{Bytes}
use block_preempt.Core.Transaction.{Transaction2, transaction2, split_at, mtx2totx1}

-- The payments of a transaction: its recipients with their values.
abbrev pub payments : List Bytes → List ℤ → List (Bytes × ℤ)
payments [] values = []
payments (r ∷ rs) [] = []
payments (r ∷ rs) (v ∷ vs) = (r, v) ∷ payments rs vs

abbrev pub all_payments : List Transaction2 → List (Bytes × ℤ)
all_payments [] = []
all_payments (tx ∷ txs) = payments tx.recipient tx.value ++ all_payments txs

abbrev pub AllFrom : Bytes → List Transaction2 → Type 0
AllFrom sender [] = Unit
AllFrom sender (tx ∷ txs) = (tx.sender ≡ sender) × (length tx.recipient ≡ 1) × AllFrom sender txs

abbrev Splits : Bytes → List Bytes → List ℤ → List Transaction2 → Type 0
Splits sender rs vs txs = (all_payments txs ≡ payments rs vs) × AllFrom sender txs

split_at-Splits :
    (sender : Bytes) (rs : List Bytes) (vs : List ℤ)
    → length rs ≤ length vs
    → (txs : List Transaction2) × (split_at sender rs vs ≡ some txs) × Splits sender rs vs txs
unfolding split_at
split_at-Splits sender [] vs h = ([], refl, (refl, tt))
split_at-Splits sender (r ∷ rs) [] h = elim h [ ]
split_at-Splits sender (r ∷ rs) (v ∷ vs) h =
    let (txs, e, (same, from)) = split_at-Splits sender rs vs (omega arith) in
    (
      transaction2 sender (r ∷ []) (v ∷ []) ∷ txs,
      rw e,
      (ap (λ l. (r, v) ∷ l) same, (refl, refl, from)),
    )

-- With a value for each recipient the split returns: each part has one recipient and the same sender,
-- and the payments are those of the aggregated transaction, in order.
pub mtx2totx1-payments :
    (tx : Transaction2)
    → length tx.recipient ≤ length tx.value
    → (txs : List Transaction2) × (mtx2totx1 tx ≡ some txs)
      × (all_payments txs ≡ payments tx.recipient tx.value)
      × AllFrom tx.sender txs
unfolding mtx2totx1
mtx2totx1-payments tx h =
    let (txs, e, (same, from)) = split_at-Splits tx.sender tx.recipient tx.value h in
    (txs, e, same, from)
