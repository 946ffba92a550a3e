-- ===== src/Pbft/FromClient/Once.antt =====
-- `handleTxFromClient` on transactions with one recipient each: the loop that writes to the slice it
-- reads keeps what it should.
use mathlib.Core.List.{append_assoc, append-nil}
use block_preempt.Prelude.{
  ℕ, suc, ◌≤◌, ◌≡◌, refl, sym, ap, ◌∙◌, Bool, true, false, not, Option, some, List, [], ◌∷◌, ◌++◌,
  length, get_elem?, set, take, drop, take-set, drop-set, drop-cons, lt→ltb, if◌then◌else◌, ◌>>=◌,
  Bool-cases, Option-cases, inl, inr, arith,
}
use block_preempt.Prelude.Int.{ℤ}
use block_preempt.Params.{ChainConfig}
use block_preempt.Account.Hex.{Str, hex}
use block_preempt.Trie.Nibbles.{Bytes}
use block_preempt.Core.TxPool.Plain.{and_false}
use block_preempt.Core.Transaction.{Transaction2}
use block_preempt.Core.TxPool.{Ref, TxPool, Accounts}
use block_preempt.Pbft.FromClient.{
  Receiving, forward, in_own, full_lock, half_lock_on, client_recipient, client_recipients,
  client_tx, client_loop, try_send_tx, handle_tx_from_client,
}

-- No account is locked, half or full.
abbrev pub Unlocked : Accounts → Type 0
Unlocked acc =
    (addr : Str) → (acc.lock_acc addr ≡ false) × (acc.outing_acc_before_announce addr ≡ false)

abbrev pub AllOnce : (Ref → Transaction2) → List Ref → Type 0
AllOnce store [] = Unit
AllOnce store (v ∷ vs) = (length (store v).recipient ≡ 1) × AllOnce store vs

-- The transactions that satisfy a test, in their order.
abbrev pub those : (Ref → Bool) → List Ref → List Ref
those f [] = []
those f (v ∷ vs) = let rest = those f vs in if f v then v ∷ rest else rest

either_way : {A : Type 0} (b : Bool) {x y z : A} → x ≡ z → y ≡ z → (if b then x else y) ≡ z
either_way true e e' = e
either_way false e e' = e'

those-cons :
    (f : Ref → Bool) (v : Ref) (vs : List Ref) → those f (v ∷ []) ++ those f vs ≡ those f (v ∷ vs)
those-cons f v vs = elim (Bool-cases (f v)) [ inl e ↦ rw e refl | inr e ↦ rw e refl ]

appends :
    {ys zs : List Ref} (xs : List Ref) (f : Ref → Bool) (v : Ref) (vs : List Ref)
    → ys ≡ xs ++ those f (v ∷ [])
    → zs ≡ ys ++ those f vs
    → zs ≡ xs ++ those f (v ∷ vs)
appends xs f v vs e e' =
    e'
    ∙ ap (λ l. l ++ those f vs) e
    ∙ append_assoc xs (those f (v ∷ [])) (those f vs)
    ∙ ap (λ l. xs ++ l) (those-cons f v vs)

module _ (now : ℕ → ℤ) (c : ChainConfig) (own : ℤ) (account2shard : Str → Option ℤ)
    (acc : Accounts) where
  abbrev pub mine : (Ref → Transaction2) → Ref → Bool
  mine store v = in_own own account2shard (store v)

  pub client_recipient-Unlocked :
      Unlocked acc
      → (v : Ref) (r : Bytes) (s : Receiving)
      → client_recipient now c own account2shard acc v r s
        ≡ client_tx now c own account2shard acc v s
  unfolding client_recipient client_tx
  client_recipient-Unlocked free v r s =
      let tx = s.pool.store v in
      let a = (free (hex tx.sender)).0 in
      let b = (free (hex r)).0 in
      let d = (free (hex tx.sender)).1 in
      rw a (
        rw b (
          rw d (elim (Bool-cases (mine s.pool.store v)) [
            | inl e ↦ rw e rw (and_false (full_lock c)) (rw (and_false (half_lock_on c)) refl)
            | inr e ↦ rw e refl
          ])))

  client_recipients-once :
      Unlocked acc
      → (v : Ref) (rs : List Bytes) (s : Receiving) → length rs ≡ 1
      → client_recipients now c own account2shard acc v rs s
        ≡ client_tx now c own account2shard acc v s
  unfolding client_recipients
  client_recipients-once free v [] s h = absurd (omega (arith, h))
  client_recipients-once free v (r ∷ []) s h =
      let same = client_recipient-Unlocked free v r s in
      elim (Option-cases (client_recipient now c own account2shard acc v r s)) [
        | inl e ↦ rw e (sym e ∙ same)
        | inr (s', e) ↦ rw e (sym e ∙ same)
      ]
  client_recipients-once free v (r ∷ r' ∷ rs) s h = absurd (omega (arith, h))

  -- One pass of the outer loop, for a transaction with one recipient.
  client_pass :
      Unlocked acc
      → (k i : ℕ) (v : Ref) (s : Receiving) → get_elem? s.txs i ≡ some v
      → length (s.pool.store v).recipient ≡ 1
      → client_loop now c own account2shard acc (suc k) i s ≡ (
          client_tx now c own account2shard acc v s >>= λ s'.
          client_loop now c own account2shard acc k (suc i) s')
  unfolding client_loop client_recipients
  client_pass free k i v s e once = rw e (
      ap (λ m. m >>= λ s'. client_loop now c own account2shard acc k (suc i) s')
        (either_way c.not_lock_immediately refl
          (client_recipients-once free v (s.pool.store v).recipient s once)))

  -- What a loop whose transactions have one recipient makes of the state: `j` is what is kept.
  abbrev Receives : List Ref → Receiving → Receiving → Type 0
  Receives rest s s' =
      (s'.pool ≡ s.pool)
      × (take s'.j s'.txs ≡ take s.j s.txs ++ those (mine s.pool.store) rest)
      × (s'.tx2 ≡ s.tx2 ++ those (λ v. not (mine s.pool.store v)) rest)

  client_tx-Receives :
      (i : ℕ) (v : Ref) (rest : List Ref) (s : Receiving)
      → drop i s.txs ≡ v ∷ rest
      → s.j ≤ i
      → (s' : Receiving) × (client_tx now c own account2shard acc v s ≡ some s')
        × Receives (v ∷ []) s s'
        × (drop (suc i) s'.txs ≡ rest)
        × (s'.j ≤ suc i)
  unfolding client_tx
  client_tx-Receives i v rest s e le =
      let (here, next, small) = drop-cons s.txs i v rest e in
      elim (Bool-cases (mine s.pool.store v)) [
        | inl m ↦ (
          record s { txs = set s.txs s.j v; j = suc s.j },
          rw m (rw (lt→ltb s.j (length s.txs) (omega arith)) refl),
          (refl, rw m (take-set s.txs s.j v (omega arith)), rw m (sym (append-nil s.tx2))),
          drop-set s.txs s.j (suc i) v (omega arith) ∙ next,
          omega arith,
        )
        | inr m ↦ (
          forward v s,
          rw m refl,
          (refl, rw m (sym (append-nil (take s.j s.txs))), rw m refl),
          next,
          omega arith,
        )
      ]

  client_loop-Receives :
      Unlocked acc
      → (rest : List Ref) (i : ℕ) (s : Receiving) → AllOnce s.pool.store rest
      → drop i s.txs ≡ rest
      → s.j ≤ i
      → (s' : Receiving) × (client_loop now c own account2shard acc (length rest) i s ≡ some s')
        × Receives rest s s'
  unfolding client_loop
  client_loop-Receives free [] i s once e le =
      (s, refl, (refl, sym (append-nil (take s.j s.txs)), sym (append-nil s.tx2)))
  client_loop-Receives free (v ∷ rest) i s (once, more) e le =
      let (here, next, small) = drop-cons s.txs i v rest e in
      let (s₁, e₁, (p₁, t₁, f₁), d₁, le₁) = client_tx-Receives i v rest s e le in
      let (s₂, e₂, (p₂, t₂, f₂)) = client_loop-Receives free rest (suc i) s₁ (rw p₁ more) d₁ le₁ in
      (
        s₂,
        client_pass free (length rest) i v s here once ∙ rw e₁ e₂,
        (
          p₂ ∙ p₁,
          appends (take s.j s.txs) (mine s.pool.store) v rest t₁ (rw p₁ at t₂),
          appends s.tx2 (λ q. not (mine s.pool.store q)) v rest f₁ (rw p₁ at f₂),
        ),
      )

  -- Where no account is locked and each transaction of the message has one recipient: the transactions
  -- whose sender is in the own shard go to the end of the queue, in order, and the others are what is
  -- handed to TrySendTX, in order; nothing else of the pool changes.
  pub handle_tx_from_client-once :
      Unlocked acc
      → (txs : List Ref) (pool : TxPool) → AllOnce pool.store txs
      → handle_tx_from_client now c own account2shard acc txs pool ≡ (
          try_send_tx c own account2shard pool.store (those (λ v. not (mine pool.store v)) txs)
          >>= λ sent.
              some (record pool { queue = pool.queue ++ those (mine pool.store) txs }, sent))
  unfolding handle_tx_from_client
  handle_tx_from_client-once free txs pool once =
      let s : Receiving = record { pool = pool; txs = txs; j = 0; tx2 = [] } in
      let (s', e, (p, t, f)) = client_loop-Receives free txs 0 s once refl (omega arith) in
      rw e (rw p (rw t (rw f refl)))
