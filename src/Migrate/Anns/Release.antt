-- ===== src/Migrate/Anns/Release.antt =====
-- `handleAnns` with the full lock: a waiting transaction that goes on waiting is written back once for
-- each of its recipients.
use block_preempt.Prelude.{
  ℕ, suc, ◌+◌, ◌<◌, ◌≤◌, ◌≡◌, refl, Bool, true, false, none, some, List, [], ◌∷◌, length, set,
  length-set, ltb, ltb→lt, lt→ltb, if◌then◌else◌, Bool-cases, inl, inr, arith,
}
use block_preempt.Prelude.Int.{ℤ}
use block_preempt.Trie.Nibbles.{Bytes}
use block_preempt.Account.Hex.{Str, str_eq, str_eq_refl, hex}
use block_preempt.Core.TxPool.{Ref, TxPool, tick}
use block_preempt.Migrate.Collect.{IsDelete}
use block_preempt.Migrate.Anns.{
  Releasing, put_back, update, stamp_unlock, release_recipient, release_recipients, release_loop,
  release_waiting,
}

-- None of the recipients is the account.
abbrev pub AllElse : Str → List Bytes → Type 0
AllElse addr [] = Unit
AllElse addr (r ∷ rs) = (str_eq (hex r) addr ≡ false) × AllElse addr rs

put_back-writes :
    (addr : Str) (v : Ref) (s : Releasing)
    → s.j < length (s.pool.locking_tx_pools addr)
    → (s' : Releasing) × (put_back addr v s ≡ some s')
      × (s'.j ≡ suc s.j)
      × (length (s'.pool.locking_tx_pools addr) ≡ length (s.pool.locking_tx_pools addr))
put_back-writes addr v s h =
    let slice = s.pool.locking_tx_pools addr in
    rw (lt→ltb s.j (length slice) h) (
      record s {
        pool = record s.pool {
          locking_tx_pools =
              λ key. if str_eq addr key then set slice s.j v else s.pool.locking_tx_pools key;
        };
        array = if s.shared then set s.array s.j v else s.array;
        j = suc s.j;
      },
      refl,
      refl,
      rw (str_eq_refl addr) (length-set slice s.j v),
    )

module _ (now : ℕ → ℤ) (grows : List Ref → Bool) (isdelete : IsDelete) (lock_acc : Str → Bool)
    (addr : Str) where
  put_back-overruns :
      (v : Ref) (rs : List Bytes) (s : Releasing)
      → AllElse addr rs
      → length (s.pool.locking_tx_pools addr) < s.j + length rs
      → s.j ≤ length (s.pool.locking_tx_pools addr)
      → release_recipients now grows isdelete lock_acc addr v rs s ≡ none
  unfolding release_recipients release_recipient
  put_back-overruns v [] s else_ lt le = absurd (omega arith)
  put_back-overruns v (r ∷ rs) s (other, more) lt le =
      let slice = s.pool.locking_tx_pools addr in
      rw other (elim (Bool-cases (ltb s.j (length slice))) [
        | inl e ↦
            let s₁ : Releasing =
              update v (stamp_unlock (now s.pool.clock) (s.pool.store v))
                (record s { pool = tick s.pool }) in
            let (s₂, wrote, next, len) = put_back-writes addr v s₁ (ltb→lt s.j (length slice) e) in
            rw wrote (
              put_back-overruns v rs s₂ more (omega (arith, next, len))
                (omega (arith, next, len, ltb→lt s.j (length slice) e)))
        | inr e ↦ rw e refl
      ])

  -- A transaction that waits first in line for an account that leaves, with more recipients than
  -- transactions wait, none of them the account: releasing the transactions is a panic.
  pub release_waiting-overruns :
      (pool : TxPool) (v : Ref) (rest : List Ref)
      → pool.locking_tx_pools addr ≡ v ∷ rest
      → AllElse addr (pool.store v).recipient
      → length (v ∷ rest) < length (pool.store v).recipient
      → release_waiting now grows isdelete lock_acc addr pool ≡ none
  unfolding release_waiting release_loop
  release_waiting-overruns pool v rest waits else_ many =
      let s : Releasing = record { pool = pool; array = v ∷ rest; shared = true; j = 0 } in
      let panics =
        put_back-overruns v (pool.store v).recipient s else_ (rw waits (omega arith))
          (omega arith) in
      rw waits (rw panics refl)
