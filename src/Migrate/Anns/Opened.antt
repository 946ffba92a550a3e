-- ===== src/Migrate/Anns/Opened.antt =====
-- What the loop over the announcements leaves: each account that leaves has an empty entry in `cAps`,
-- under its target shard, and is no longer in this shard.
use block_preempt.Prelude.{
  ℕ, ◌≡◌, refl, sym, ap, ◌∙◌, Bool, true, false, ◌&&◌, Option, none, some, some_inj, List, [], ◌∷◌,
  if◌then◌else◌, ◌>>=◌, Bool-cases, Option-cases, inl, inr,
}
use block_preempt.Prelude.Int.{ℤ}
use block_preempt.Params.{ChainConfig}
use block_preempt.Account.Hex.{Str, str_eq, str_eq_sound, str_eq_refl}
use block_preempt.Account.Table.{lookup, insert, lookup-insert}
use block_preempt.Core.Migration.{TxAnn}
use block_preempt.Core.TxPool.Plain.{and_false}
use block_preempt.Core.TxPool.{Ref, TxPool}
use block_preempt.Migrate.{Caps, Pendings, entry, entry_in}
use block_preempt.Migrate.Under.{
  AllUnder, AllUnder-insert, AllUnder-lookup, AllUnder-weaken, BelongsTo,
}
use block_preempt.Migrate.Collect.{IsDelete}
use block_preempt.Migrate.Anns.Leavers.{
  Applied, Decided, leave-Applied, redirect-Applied, nil-Decided, cons-Decided,
}
use block_preempt.Migrate.Anns.{
  Leaving, pendings_or_empty, open_entry, redirect, leave, apply_announcement, announcements,
}

abbrev pub Gone : IsDelete → (Str → Bool) → Type 0
Gone isdelete in_own = (a t : Str) → lookup isdelete a ≡ some t → in_own a ≡ false

abbrev pub Empty : IsDelete → Caps → Type 0
Empty isdelete caps = (a t : Str) → lookup isdelete a ≡ some t → entry caps t a ≡ some []

abbrev pub IsOpened : Leaving → Type 0
IsOpened s =
    Empty s.isdelete s.caps
    × AllUnder s.isdelete s.caps
    × Gone s.isdelete s.tables.shards.account_in_own_shard

pendings_or_empty-lookup :
    (o : Option Pendings) (a : Str) → lookup (pendings_or_empty o) a ≡ entry_in o a
pendings_or_empty-lookup none a = refl
pendings_or_empty-lookup (some ps) a = refl

entry-open_entry :
    (caps : Caps) (shard addr t a : Str)
    → entry (open_entry shard addr caps) t a
      ≡ (if str_eq shard t && str_eq addr a then some [] else entry caps t a)
entry-open_entry caps shard addr t a =
    let ps = pendings_or_empty (lookup caps shard) in
    rw (lookup-insert caps shard (insert ps addr []) t) (elim (Bool-cases (str_eq shard t)) [
      | inl e ↦ rw e (
          rw (lookup-insert ps addr [] a) (
            rw (sym (str_eq_sound shard t e)) (
              ap (λ o. if str_eq addr a then some [] else o)
                (pendings_or_empty-lookup (lookup caps shard) a))))
      | inr e ↦ rw e refl
    ])

-- A new address does not change where the others stand.
grow :
    (isdelete : IsDelete) (addr shard a t : Str)
    → lookup isdelete addr ≡ none
    → lookup isdelete a ≡ some t
    → lookup (insert isdelete addr shard) a ≡ some t
grow isdelete addr shard a t fresh e = elim (Bool-cases (str_eq addr a)) [
  | inl q ↦ let z : none ≡ some t = sym fresh ∙ rw (sym (str_eq_sound addr a q)) at e in cc
  | inr q ↦ rw (lookup-insert isdelete addr shard a) (rw q e)
]

BelongsTo-opened :
    (isdelete : IsDelete) (caps : Caps) (shard addr : Str)
    → AllUnder isdelete caps
    → BelongsTo isdelete shard (pendings_or_empty (lookup caps shard))
BelongsTo-opened isdelete caps shard addr h = elim (Option-cases (lookup caps shard)) [
  | inl e ↦ rw e (λ a txs q. cc)
  | inr (ps, e) ↦ rw e (AllUnder-lookup isdelete caps shard ps h e)
]

open_entry-AllUnder :
    (isdelete : IsDelete) (caps : Caps) (shard addr : Str)
    → AllUnder isdelete caps
    → lookup isdelete addr ≡ none
    → AllUnder (insert isdelete addr shard) (open_entry shard addr caps)
open_entry-AllUnder isdelete caps shard addr h fresh =
    let d = insert isdelete addr shard in
    let ps = pendings_or_empty (lookup caps shard) in
    AllUnder-insert d caps shard (insert ps addr [])
      (AllUnder-weaken isdelete d caps (λ a t e. grow isdelete addr shard a t fresh e) h)
      (λ a txs e. elim (Bool-cases (str_eq addr a)) [
        | inl q ↦ rw (lookup-insert isdelete addr shard a) (rw q refl)
        | inr q ↦
            let e' : lookup ps a ≡ some txs = rw q at (rw (lookup-insert ps addr [] a) at e) in
            grow isdelete addr shard a shard fresh
              (BelongsTo-opened isdelete caps shard addr h a txs e')
      ])

open_entry-Empty :
    (isdelete : IsDelete) (caps : Caps) (shard addr : Str)
    → Empty isdelete caps
    → lookup isdelete addr ≡ none
    → Empty (insert isdelete addr shard) (open_entry shard addr caps)
open_entry-Empty isdelete caps shard addr h fresh a t e = elim (Bool-cases (str_eq addr a)) [
  | inl q ↦
      let e' : some shard ≡ some t = rw q at (rw (lookup-insert isdelete addr shard a) at e) in
      rw (entry-open_entry caps shard addr t a) (rw (some_inj e') (rw (str_eq_refl t) (rw q refl)))
  | inr q ↦
      let e' : lookup isdelete a ≡ some t =
        rw q at (rw (lookup-insert isdelete addr shard a) at e) in
      rw (entry-open_entry caps shard addr t a) (rw q (rw (and_false (str_eq shard t)) (h a t e')))
]

if_false : {A : Type 0} (b : Bool) (x y : A) → b ≡ false → (if b then x else y) ≡ y
if_false b x y e = rw e refl

leave-IsOpened :
    (c : ChainConfig) (names : ℤ → Str) (ann : TxAnn) (pool : TxPool) (s : Leaving)
    → IsOpened s
    → s.tables.shards.account_in_own_shard ann.address ≡ true
    → IsOpened (leave c names ann pool s)
leave-IsOpened c names ann pool s (empty, under, gone) own =
    let addr = ann.address in
    let shard = names ann.toshard_id in
    let fresh : lookup s.isdelete addr ≡ none = elim (Option-cases (lookup s.isdelete addr)) [
      | inl e ↦ e
      | inr (t, e) ↦ let z : true ≡ false = sym own ∙ gone addr t e in cc
    ] in
    (
      open_entry-Empty s.isdelete s.caps shard addr empty fresh,
      open_entry-AllUnder s.isdelete s.caps shard addr under fresh,
      λ a t e. elim (Bool-cases (str_eq addr a)) [
        | inl q ↦ rw q refl
        | inr q ↦ rw q (gone a t (rw q at (rw (lookup-insert s.isdelete addr shard a) at e)))
      ],
    )

module _ (now : ℕ → ℤ) (grows : List Ref → Bool) (c : ChainConfig) (names : ℤ → Str)
    (unlocked : c.lock_acc_when_migrating ≡ false) where
  -- Without the full lock an announcement is never a panic, and leaves the pool alone.
  apply_announcement-IsOpened :
      (ann : TxAnn) (s : Leaving)
      → IsOpened s
      → (s' : Leaving) × (apply_announcement now grows c names ann s ≡ some s')
        × IsOpened s'
        × Applied names ann s s'
        × (s'.pool ≡ s.pool)
  unfolding apply_announcement
  apply_announcement-IsOpened ann s h =
      elim (Bool-cases (s.tables.shards.account_in_own_shard ann.address)) [
        | inl own ↦ (
          leave c names ann s.pool s,
          rw own (
              ap (λ o. o >>= λ pool. some (leave c names ann pool s))
                (if_false c.lock_acc_when_migrating _ (some s.pool) unlocked)),
          leave-IsOpened c names ann s.pool s h own,
          leave-Applied c names ann s.pool s own,
          refl,
        )
        | inr away ↦ (redirect ann s, rw away refl, h, redirect-Applied names ann s away, refl)
      ]

  pub announcements-IsOpened :
      (anns : List TxAnn) (s : Leaving)
      → IsOpened s
      → (s' : Leaving) × (announcements now grows c names anns s ≡ some s')
        × IsOpened s'
        × Decided names anns s s'
        × (s'.pool ≡ s.pool)
  unfolding announcements
  announcements-IsOpened [] s h = (s, refl, h, nil-Decided names s, refl)
  announcements-IsOpened (ann ∷ anns) s h =
      let (s₁, e₁, h₁, a₁, p₁) = apply_announcement-IsOpened ann s h in
      let (s₂, e₂, h₂, d₂, p₂) = announcements-IsOpened anns s₁ h₁ in
      (s₂, rw e₁ e₂, h₂, cons-Decided names ann anns s s₁ s₂ a₁ d₂, p₂ ∙ p₁)
