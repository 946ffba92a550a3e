-- ===== src/Pbft/FromClient/Overrun.antt =====
-- `handleTxFromClient` on a transaction with several recipients: the copies that the loop writes run
-- over the transactions that it has yet to read, and over the end of the slice.
use block_preempt.Prelude.{
  ℕ, zero, suc, ◌+◌, ◌≤◌, ◌<◌, ◌≡◌, refl, subst, ◌∙◌, ◌≢◌, true, false, Option, none, some, List,
  [], ◌∷◌, length, get_elem?, set, length-set, get_elem?-set_self, get_elem?-set_ne, ltb, ◌==◌,
  ==_iff, Bool-cases, Option-cases, inl, inr, arith, ltb→lt,
}
use block_preempt.Prelude.Int.{ℤ}
use block_preempt.Params.{ChainConfig}
use block_preempt.Trie.Nibbles.{Bytes}
use block_preempt.Account.Hex.{Str}
use block_preempt.Core.Transaction.{Transaction2}
use block_preempt.Core.TxPool.{Ref, TxPool, Accounts}
use block_preempt.Pbft.FromClient.{
  Receiving, write_tx, in_own, client_recipient, client_recipients, client_tx, client_loop,
  handle_tx_from_client,
}
use block_preempt.Pbft.FromClient.Once.{Unlocked, mine, client_recipient-Unlocked}

-- Up to `j` the slice holds copies of `v`.
abbrev Covered : Ref → (Ref → Transaction2) → ℕ → Receiving → Type 0
Covered v store n s =
    (s.pool.store ≡ store)
    × (length s.txs ≡ n)
    × (s.j ≤ n)
    × ((i : ℕ) → i < s.j → get_elem? s.txs i ≡ some v)

-- The copies for `m` recipients are all written, or the end was reached.
abbrev Writes : Ref → (Ref → Transaction2) → ℕ → ℕ → Receiving → Option Receiving → Type 0
Writes v store n m s none = Unit
Writes v store n m s (some s') = Covered v store n s' × (s'.j ≡ s.j + m)

Writes-more :
    (v : Ref) (store : Ref → Transaction2) (n m : ℕ) (s s₁ : Receiving) (o : Option Receiving)
    → s₁.j ≡ s.j + 1
    → Writes v store n m s₁ o
    → Writes v store n (suc m) s o
Writes-more v store n m s s₁ none e h = tt
Writes-more v store n m s s₁ (some s') e (h, e') = (h, omega (arith, e, e'))

write_tx-Writes :
    (v : Ref) (store : Ref → Transaction2) (n : ℕ) (s : Receiving)
    → Covered v store n s
    → Writes v store n 1 s (write_tx v s)
write_tx-Writes v store n s (st, len, le, all) = elim (Bool-cases (ltb s.j (length s.txs))) [
  | inl e ↦
      let small = ltb→lt s.j (length s.txs) e in
      rw e (
        (
          st,
          length-set s.txs s.j v ∙ len,
          omega (arith, small, len),
          λ i h. elim (Bool-cases (s.j == i)) [
            | inl q ↦
                subst (λ k. get_elem? (set s.txs s.j v) k ≡ some v) ((==_iff s.j i).0 q)
                  (get_elem?-set_self s.txs s.j v small)
            | inr q ↦
                let other : s.j ≢ i = ground arith in
                get_elem?-set_ne s.txs v other ∙ all i (omega arith)
          ],
        ),
        omega arith,
      )
  | inr e ↦ rw e tt
]

module _ (now : ℕ → ℤ) (c : ChainConfig) (own : ℤ) (account2shard : Str → Option ℤ) (acc : Accounts)
    (free : Unlocked acc) (store : Ref → Transaction2) (v : Ref)
    (here : mine now c own account2shard acc store v ≡ true) (n : ℕ) where
  client_recipient-writes :
      (r : Bytes) (s : Receiving)
      → s.pool.store ≡ store
      → client_recipient now c own account2shard acc v r s ≡ write_tx v s
  unfolding client_tx
  client_recipient-writes r s st =
      let here' : mine now c own account2shard acc s.pool.store v ≡ true = rw st here in
      client_recipient-Unlocked now c own account2shard acc free v r s ∙ rw here' refl

  client_recipients-Writes :
      (rs : List Bytes) (s : Receiving)
      → Covered v store n s
      → Writes v store n (length rs) s (client_recipients now c own account2shard acc v rs s)
  unfolding client_recipients
  client_recipients-Writes [] s h = (h, omega arith)
  client_recipients-Writes (r ∷ rs) s h =
      rw (client_recipient-writes r s h.0) (elim (Option-cases (write_tx v s)) [
        | inl e ↦ rw e tt
        | inr (s₁, e) ↦
            let (h₁, j₁) : Writes v store n 1 s (some s₁) =
              subst (Writes v store n 1 s) e (write_tx-Writes v store n s h) in
            rw e (
              Writes-more v store n (length rs) s s₁
                (client_recipients now c own account2shard acc v rs s₁) j₁
                (client_recipients-Writes rs s₁ h₁))
      ])

  -- A pass that reads `v`: the rest of the loop is run on what the pass makes of the state.
  pass :
      c.not_lock_immediately ≡ false
      → (k i : ℕ) (s : Receiving) → Covered v store n s
      → get_elem? s.txs i ≡ some v
      → ((s₁ : Receiving)
          → Covered v store n s₁
          → s₁.j ≡ s.j + length (store v).recipient
          → client_loop now c own account2shard acc k (suc i) s₁ ≡ none)
      → client_loop now c own account2shard acc (suc k) i s ≡ none
  unfolding client_loop
  pass immediately k i s h e next =
      let rs = (s.pool.store v).recipient in
      let same : length rs ≡ length (store v).recipient = rw h.0 refl in
      rw e (
        simp immediately
          (elim (Option-cases (client_recipients now c own account2shard acc v rs s)) [
            | inl w ↦ rw w refl
            | inr (s₁, w) ↦
                let (h₁, j₁) : Writes v store n (length rs) s (some s₁) =
                  subst (Writes v store n (length rs) s) w (client_recipients-Writes rs s h) in
                rw w (next s₁ h₁ (omega (arith, j₁, same)))
          ]))

  client_loop-overruns :
      c.not_lock_immediately ≡ false
      → 2 ≤ length (store v).recipient
      → (k i : ℕ) (s : Receiving) → Covered v store n s
      → i < s.j
      → i + k ≡ n
      → client_loop now c own account2shard acc k i s ≡ none
  client_loop-overruns immediately several zero i s (st, len, le, all) lt q = absurd (omega arith)
  client_loop-overruns immediately several (suc k) i s h lt q =
      pass immediately k i s h (h.3 i lt) (λ s₁ h₁ e.
        client_loop-overruns immediately several k (suc i) s₁ h₁ (omega (arith, e)) (omega arith))

-- Without Not_Lock_immediately, where no account is locked: a message whose first transaction has its
-- sender in the own shard and two recipients or more is a panic, whatever else it carries.
pub handle_tx_from_client-overruns :
    (now : ℕ → ℤ) (c : ChainConfig) (own : ℤ) (account2shard : Str → Option ℤ) (acc : Accounts)
    → Unlocked acc
    → c.not_lock_immediately ≡ false
    → (v : Ref) (rest : List Ref) (pool : TxPool) → in_own own account2shard (pool.store v) ≡ true
    → 2 ≤ length (pool.store v).recipient
    → handle_tx_from_client now c own account2shard acc (v ∷ rest) pool ≡ none
unfolding handle_tx_from_client
handle_tx_from_client-overruns now c own account2shard acc free immediately v rest pool here
      several =
    let s : Receiving = record { pool = pool; txs = v ∷ rest; j = 0; tx2 = [] } in
    let n = length (v ∷ rest) in
    let ends =
      pass now c own account2shard acc free pool.store v here n immediately (length rest) 0 s
        (refl, refl, omega arith, λ i h. absurd (omega arith)) refl
        (λ s₁ h₁ e.
          client_loop-overruns now c own account2shard acc free pool.store v here n immediately
            several (length rest) 1 s₁ h₁ (omega (arith, e)) (omega arith)) in
    rw ends refl
