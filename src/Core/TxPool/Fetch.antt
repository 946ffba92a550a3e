-- ===== src/Core/TxPool/Fetch.antt =====
-- `FetchTxs2Pack`: what is packed does not depend on the locks.
use block_preempt.Prelude.{
  ℕ, zero, suc, ◌+◌, ◌-◌, ◌≤◌, ◌≡◌, refl, ap, sym, ◌∙◌, true, false, not, List, [], ◌∷◌, ◌++◌,
  length, take, drop, replicate, ltb, arith, Bool-cases, inl, inr, length-drop, ltb→lt,
}
use mathlib.Core.List.{append_assoc, append-nil}
use block_preempt.Prelude.Int.{ℤ, pos, negsuc, ltb_ℤ}
use block_preempt.Params.{ChainConfig}
use block_preempt.Account.Hex.{hex, str_eq_refl}
use block_preempt.Trie.Nibbles.{Bytes}
use block_preempt.Core.Transaction.{Transaction2}
use block_preempt.Core.TxPool.Plain.{IsPlain, ==_refl, and_false}
use block_preempt.Core.TxPool.{
  Ref, TxPool, Accounts, fetch_recipient, fetch_recipients, fetch_loop, fetch_txs2_pack,
  park_sender, park_recipient, park_copy, park_outing,
}

take_all : {A : Type 0} (m : ℕ) (xs : List A) → length xs ≤ m → take m xs ≡ xs
take_all zero [] h = refl
take_all zero (x ∷ xs) h = elim h [ ]
take_all (suc m) [] h = refl
take_all (suc m) (x ∷ xs) h = ap (λ l. x ∷ l) (take_all m xs (omega arith))

drop_all : {A : Type 0} (m : ℕ) (xs : List A) → length xs ≤ m → drop m xs ≡ []
drop_all zero [] h = refl
drop_all zero (x ∷ xs) h = elim h [ ]
drop_all (suc m) [] h = refl
drop_all (suc m) (x ∷ xs) h = drop_all m xs (omega arith)

drop-length-take : {A : Type 0} (m : ℕ) (xs : List A) → drop (length (take m xs)) xs ≡ drop m xs
drop-length-take zero xs = refl
drop-length-take (suc m) [] = refl
drop-length-take (suc m) (x ∷ xs) = drop-length-take m xs

ltb_zero : (a : ℕ) → ltb a 0 ≡ false
ltb_zero a = ground arith

module _ (now : ℕ → ℤ) (gob_copy : Transaction2 → Transaction2) (c : ChainConfig) (acc : Accounts)
    (block_number : ℕ) where
  fetch_recipient-queue :
      (v : Ref) (r : Bytes) (pool : TxPool)
      → (fetch_recipient now gob_copy c acc block_number v r pool).queue ≡ pool.queue
  unfolding fetch_recipient park_sender park_recipient park_copy park_outing
  fetch_recipient-queue v r pool = ground arith

  fetch_recipients-queue :
      (v : Ref) (rs : List Bytes) (pool : TxPool)
      → (fetch_recipients now gob_copy c acc block_number v rs pool).queue ≡ pool.queue
  unfolding fetch_recipients
  fetch_recipients-queue v [] pool = refl
  fetch_recipients-queue v (r ∷ rs) pool =
      fetch_recipients-queue v rs (fetch_recipient now gob_copy c acc block_number v r pool)
      ∙ fetch_recipient-queue v r pool

  fetch_loop_lem :
      (m : ℕ) (q : List Ref) (loc1 : ℕ) (pool : TxPool)
      → let r = fetch_loop now gob_copy c acc block_number (pos m) q loc1 pool in
        (r.0 ≡ take m q) × (r.1 ≡ loc1 + length (take m q)) × (r.2.queue ≡ pool.queue)
  unfolding fetch_loop
  fetch_loop_lem zero [] loc1 pool = (refl, omega arith, refl)
  fetch_loop_lem zero (v ∷ q) loc1 pool = (refl, omega arith, refl)
  fetch_loop_lem (suc m) [] loc1 pool = (refl, omega arith, refl)
  fetch_loop_lem (suc m) (v ∷ q) loc1 pool =
      let pool' =
        fetch_recipients now gob_copy c acc block_number v (pool.store v).recipient pool in
      let (h₁, h₂, h₃) = fetch_loop_lem m q (loc1 + 1) pool' in
      (
        ap (λ l. v ∷ l) h₁,
        omega (arith, h₂),
        h₃ ∙ fetch_recipients-queue v (pool.store v).recipient pool,
      )

  fetch_loop_negative :
      (n : ℕ) (q : List Ref) (loc1 : ℕ) (pool : TxPool)
      → let r = fetch_loop now gob_copy c acc block_number (negsuc n) q loc1 pool in
        (r.0 ≡ q) × (r.1 ≡ loc1 + length q) × (r.2.queue ≡ pool.queue)
  unfolding fetch_loop
  fetch_loop_negative n [] loc1 pool = (refl, omega arith, refl)
  fetch_loop_negative n (v ∷ q) loc1 pool =
      let pool' =
        fetch_recipients now gob_copy c acc block_number v (pool.store v).recipient pool in
      let (h₁, h₂, h₃) = fetch_loop_negative (suc n) q (loc1 + 1) pool' in
      (
        ap (λ l. v ∷ l) h₁,
        omega (arith, h₂),
        h₃ ∙ fetch_recipients-queue v (pool.store v).recipient pool,
      )

  -- What the fetch comes to where the loop is bounded by `n`.
  fetch_cut :
      (n m : ℕ) (pool : TxPool)
      → take n pool.queue ≡ take m pool.queue
      → drop n pool.queue ≡ drop m pool.queue
      → let r = fetch_loop now gob_copy c acc block_number (pos n) pool.queue 0 pool in
        let queue = drop r.1 r.2.queue in
        (r.0 ≡ take m pool.queue)
        × (queue ≡ drop m pool.queue)
        × (length queue ≡ length pool.queue - m)
  fetch_cut n m pool ht hd =
      let (h₁, h₂, h₃) = fetch_loop_lem n pool.queue 0 pool in
      let r = fetch_loop now gob_copy c acc block_number (pos n) pool.queue 0 pool in
      let count : r.1 ≡ length (take n pool.queue) = omega (arith, h₂) in
      let same : drop r.1 r.2.queue ≡ drop m pool.queue =
        rw count (rw h₃ (drop-length-take n pool.queue ∙ hd)) in
      (h₁ ∙ ht, same, ap length same ∙ length-drop m pool.queue)

  -- For a `left_count` that is not negative, the front of the queue is packed, in order, whatever the
  -- configuration and the locks are: at most `left_count` transactions, and the whole queue if it is
  -- shorter. The queue keeps the others, and the length returned is theirs.
  pub fetch_txs2_pack_front :
      (left_count : ℕ) (pool : TxPool)
      → let r = fetch_txs2_pack now gob_copy c acc (pos left_count) block_number pool in
        (r.0 ≡ take left_count pool.queue)
        × (r.2.queue ≡ drop left_count pool.queue)
        × (r.1 ≡ length pool.queue - left_count)
  unfolding fetch_txs2_pack
  fetch_txs2_pack_front m pool = elim (Bool-cases (ltb_ℤ (pos (length pool.queue)) (pos m))) [
    | inl h ↦
        let le : length pool.queue ≤ m = omega (arith, ltb→lt (length pool.queue + 0) (m + 0) h) in
        let l = length pool.queue in
        rw h (
          fetch_cut l m pool (take_all l pool.queue (omega arith) ∙ sym (take_all m pool.queue le))
            (drop_all l pool.queue (omega arith) ∙ sym (drop_all m pool.queue le)))
    | inr h ↦ rw h (fetch_cut m m pool refl refl)
  ]

  -- A negative `left_count` does not bound the fetch: the whole queue is packed, and nothing is left.
  pub fetch_txs2_pack_negative :
      (n : ℕ) (pool : TxPool)
      → let r = fetch_txs2_pack now gob_copy c acc (negsuc n) block_number pool in
        (r.0 ≡ pool.queue) × (r.2.queue ≡ []) × (r.1 ≡ 0)
  unfolding fetch_txs2_pack
  fetch_txs2_pack_negative n pool =
      let (h₁, h₂, h₃) = fetch_loop_negative n pool.queue 0 pool in
      let r = fetch_loop now gob_copy c acc block_number (negsuc n) pool.queue 0 pool in
      let count : r.1 ≡ length pool.queue = omega (arith, h₂) in
      let same : drop r.1 r.2.queue ≡ [] =
        rw count (rw h₃ (drop_all (length pool.queue) pool.queue (omega arith))) in
      rw (ltb_zero (length pool.queue + suc n)) (h₁, same, ap length same)

  fetch_recipient-locked :
      (v : Ref) (sender r : Bytes) (pool : TxPool)
      → IsPlain sender (pool.store v)
      → c.lock_acc_when_migrating ≡ true
      → acc.account_in_own_shard (hex sender) ≡ true
      → acc.lock_acc (hex sender) ≡ true
      → let pool' = fetch_recipient now gob_copy c acc block_number v r pool in
        IsPlain sender (pool'.store v)
        × (pool'.locking_tx_pools (hex sender) ≡ pool.locking_tx_pools (hex sender) ++ v ∷ [])
  unfolding fetch_recipient park_sender
  fetch_recipient-locked v sender r pool (e₁, e₂, e₃) hc hs hl = rw e₁ (
      rw e₂ (
        rw e₃ (
          rw hc (
            rw hs (
              rw hl (
                rw (and_false (not (acc.account_in_own_shard (hex r))))
                  (rw (==_refl v) (rw (str_eq_refl (hex sender)) ground arith))))))))

  fetch_recipients-locked :
      (v : Ref) (sender : Bytes) (rs : List Bytes) (pool : TxPool)
      → IsPlain sender (pool.store v)
      → c.lock_acc_when_migrating ≡ true
      → acc.account_in_own_shard (hex sender) ≡ true
      → acc.lock_acc (hex sender) ≡ true
      → (fetch_recipients now gob_copy c acc block_number v rs pool).locking_tx_pools (hex sender)
        ≡ pool.locking_tx_pools (hex sender) ++ replicate (length rs) v
  unfolding fetch_recipients
  fetch_recipients-locked v sender [] pool h hc hs hl =
      sym (append-nil (pool.locking_tx_pools (hex sender)))
  fetch_recipients-locked v sender (r ∷ rs) pool h hc hs hl =
      let (plain, e) = fetch_recipient-locked v sender r pool h hc hs hl in
      let pool' = fetch_recipient now gob_copy c acc block_number v r pool in
      fetch_recipients-locked v sender rs pool' plain hc hs hl
      ∙ ap (λ l. l ++ replicate (length rs) v) e
      ∙ append_assoc (pool.locking_tx_pools (hex sender)) (v ∷ []) (replicate (length rs) v)

  -- With `Lock_Acc_When_Migrating`, a queue of one transaction of this shard that is no relay and has a
  -- locked sender, and a `left_count` of one or more: the transaction is parked once for each of its
  -- recipients, and it is packed into the block as well.
  pub fetch_txs2_pack_locked :
      (m : ℕ) (v : Ref) (sender : Bytes) (pool : TxPool)
      → pool.queue ≡ v ∷ []
      → IsPlain sender (pool.store v)
      → c.lock_acc_when_migrating ≡ true
      → acc.account_in_own_shard (hex sender) ≡ true
      → acc.lock_acc (hex sender) ≡ true
      → let r = fetch_txs2_pack now gob_copy c acc (pos (suc m)) block_number pool in
        (r.0 ≡ v ∷ [])
        × (r.2.queue ≡ [])
        × (r.2.locking_tx_pools (hex sender)
            ≡ pool.locking_tx_pools (hex sender) ++ replicate (length (pool.store v).recipient) v)
  unfolding fetch_txs2_pack fetch_loop
  fetch_txs2_pack_locked m v sender pool hq h hc hs hl =
      let (packed, left, count) = fetch_txs2_pack_front (suc m) pool in
      let parked = fetch_recipients-locked v sender (pool.store v).recipient pool h hc hs hl in
      (
        packed ∙ rw hq (take_all (suc m) (v ∷ []) (omega arith)),
        left ∙ rw hq (drop_all (suc m) (v ∷ []) (omega arith)),
        rw hq (elim (Bool-cases (ltb (1 + 0) (suc m + 0))) [
          | inl e ↦ rw e (rw hq at parked)
          | inr e ↦ rw e (rw hq at parked)
        ]),
      )
