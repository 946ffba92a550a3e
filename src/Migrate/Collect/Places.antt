-- ===== src/Migrate/Collect/Places.antt =====
-- The account that a transaction of the queue leaves with, and what the loop over its recipients does.
use block_preempt.Prelude.{
  ◌≡◌, refl, sym, ap, ◌∙◌, Bool, true, false, not, ◌&&◌, Option, none, some, List, [], ◌∷◌,
  if◌then◌else◌, ◌⊎◌, some_inj, Bool-cases, Option-cases, inl, inr, arith,
}
use block_preempt.Trie.Nibbles.{Bytes}
use block_preempt.Account.Hex.{Str, hex}
use block_preempt.Account.Table.{lookup}
use block_preempt.Core.Transaction.{Transaction2}
use block_preempt.Core.TxPool.{Ref}
use block_preempt.Migrate.Collect.{
  IsDelete, Collecting, second_half, collect_at, mark_rec_lock, collect_recipients,
}

-- The target shard and the address of the account that a transaction leaves with.
abbrev pub Place : Type 0
Place = Option (Str × Str)

abbrev place_at : Str → Option Str → Place → Place
place_at addr none rest = rest
place_at addr (some shard) rest = some (shard, addr)

abbrev first_leaving : IsDelete → List Bytes → Place
first_leaving isdelete [] = none
first_leaving isdelete (r ∷ rs) =
    let rest = first_leaving isdelete rs in place_at (hex r) (lookup isdelete (hex r)) rest

abbrev sender_leaving : IsDelete → Bytes → List Bytes → Place
sender_leaving isdelete sender [] = none
sender_leaving isdelete sender (r ∷ rs) = place_at (hex sender) (lookup isdelete (hex sender)) none

-- A first half leaves with its sender; a second half with the first of its recipients that leaves.
abbrev pub leaves_with : IsDelete → Transaction2 → Place
leaves_with isdelete tx =
    if second_half tx
    then first_leaving isdelete tx.recipient
    else sender_leaving isdelete tx.sender tx.recipient

abbrev pub collect_place : Place → Bool → Ref → Collecting → Option (Bool × Collecting)
collect_place none half v s = some (false, s)
collect_place (some p) half v s = collect_at p.0 p.1 v (if half then mark_rec_lock v s else s)

sender_leaving-stays :
    (isdelete : IsDelete) (sender : Bytes) (rs : List Bytes)
    → lookup isdelete (hex sender) ≡ none
    → sender_leaving isdelete sender rs ≡ none
sender_leaving-stays isdelete sender [] e = refl
sender_leaving-stays isdelete sender (r ∷ rs) e = rw e refl

collect_recipients-first :
    (isdelete : IsDelete) (v : Ref) (rs : List Bytes) (s : Collecting)
    → second_half (s.pool.store v) ≡ false
    → collect_recipients isdelete v rs s
      ≡ collect_place (sender_leaving isdelete (s.pool.store v).sender rs) false v s
unfolding collect_recipients
collect_recipients-first isdelete v [] s h = refl
collect_recipients-first isdelete v (r ∷ rs) s h =
    let tx = s.pool.store v in
    let first : (not tx.is_relay && not tx.relay_lock) ≡ true = ground arith in
    elim (Option-cases (lookup isdelete (hex tx.sender))) [
      | inl e ↦
          rw (first, collect_recipients)
            (rw e (
              rw h (
                collect_recipients-first isdelete v rs s h
                ∙ ap (λ p. collect_place p false v s)
                    (sender_leaving-stays isdelete tx.sender rs e))))
      | inr (shard, e) ↦ rw (first, collect_recipients) (rw e refl)
    ]

collect_recipients-second :
    (isdelete : IsDelete) (v : Ref) (rs : List Bytes) (s : Collecting)
    → second_half (s.pool.store v) ≡ true
    → collect_recipients isdelete v rs s ≡ collect_place (first_leaving isdelete rs) true v s
unfolding collect_recipients
collect_recipients-second isdelete v [] s h = refl
collect_recipients-second isdelete v (r ∷ rs) s h =
    let tx = s.pool.store v in
    let second : (not tx.is_relay && not tx.relay_lock) ≡ false = ground arith in
    elim (Option-cases (lookup isdelete (hex r))) [
      | inl e ↦
          rw (second, collect_recipients)
            (rw h (rw e (collect_recipients-second isdelete v rs s h)))
      | inr (shard, e) ↦ rw (second, collect_recipients) (rw h (rw e refl))
    ]

pub collect_recipients-place :
    (isdelete : IsDelete) (v : Ref) (s : Collecting)
    → let tx = s.pool.store v in
      collect_recipients isdelete v tx.recipient s
      ≡ collect_place (leaves_with isdelete tx) (second_half tx) v s
collect_recipients-place isdelete v s =
    let tx = s.pool.store v in
    elim (Bool-cases (second_half tx)) [
      | inl e ↦ rw e (collect_recipients-second isdelete v tx.recipient s e)
      | inr e ↦ rw e (collect_recipients-first isdelete v tx.recipient s e)
    ]

place_at-some :
    (isdelete : IsDelete) (addr : Str) (rest : Place) (shard a : Str)
    → place_at addr (lookup isdelete addr) rest ≡ some (shard, a)
    → (lookup isdelete a ≡ some shard) ⊎ (rest ≡ some (shard, a))
place_at-some isdelete addr rest shard a h = elim (Option-cases (lookup isdelete addr)) [
  | inl e ↦ inr (rw e at h)
  | inr (shard', e) ↦
      let h' : some (shard', addr) ≡ some (shard, a) = rw e at h in
      let q : addr ≡ a = ap (λ p. p.1) (some_inj h') in
      let q' : shard' ≡ shard = ap (λ p. p.0) (some_inj h') in inl (rw (sym q) (rw (sym q') e))
]

first_leaving-leaves :
    (isdelete : IsDelete) (rs : List Bytes) (shard addr : Str)
    → first_leaving isdelete rs ≡ some (shard, addr)
    → lookup isdelete addr ≡ some shard
first_leaving-leaves isdelete [] shard addr h = cc
first_leaving-leaves isdelete (r ∷ rs) shard addr h =
    elim (place_at-some isdelete (hex r) (first_leaving isdelete rs) shard addr h) [
      | inl e ↦ e
      | inr e ↦ first_leaving-leaves isdelete rs shard addr e
    ]

sender_leaving-leaves :
    (isdelete : IsDelete) (sender : Bytes) (rs : List Bytes) (shard addr : Str)
    → sender_leaving isdelete sender rs ≡ some (shard, addr)
    → lookup isdelete addr ≡ some shard
sender_leaving-leaves isdelete sender [] shard addr h = cc
sender_leaving-leaves isdelete sender (r ∷ rs) shard addr h =
    elim (place_at-some isdelete (hex sender) none shard addr h) [ inl e ↦ e | inr e ↦ cc ]

pub leaves_with-leaves :
    (isdelete : IsDelete) (tx : Transaction2) (shard addr : Str)
    → leaves_with isdelete tx ≡ some (shard, addr)
    → lookup isdelete addr ≡ some shard
leaves_with-leaves isdelete tx shard addr h = elim (Bool-cases (second_half tx)) [
  | inl e ↦ first_leaving-leaves isdelete tx.recipient shard addr (rw e at h)
  | inr e ↦ sender_leaving-leaves isdelete tx.sender tx.recipient shard addr (rw e at h)
]
