-- ===== src/Migrate/Anns/Leavers.antt =====
-- Which accounts a list of announcements takes out of the shard, and for which shards.
use block_preempt.Prelude.{
  ◌≡◌, refl, sym, ap, ◌∙◌, Bool, true, false, ◌&&◌, Option, none, some, List, [], ◌∷◌,
  if◌then◌else◌, Bool-cases, inl, inr, arith,
}
use block_preempt.Prelude.Int.{ℤ}
use block_preempt.Params.{ChainConfig}
use block_preempt.Account.Hex.{Str, str_eq, str_eq_sound}
use block_preempt.Account.Table.{lookup, lookup-insert}
use block_preempt.Core.Migration.{TxAnn}
use block_preempt.Core.TxPool.{TxPool}
use block_preempt.Migrate.Anns.{Leaving, redirect, leave}

-- The shard that the first announcement of the account names.
abbrev pub first_target : (ℤ → Str) → List TxAnn → Str → Option Str
first_target names [] a = none
first_target names (ann ∷ anns) a =
    let later = first_target names anns a in
    if str_eq ann.address a then some (names ann.toshard_id) else later

-- An account leaves where it is in the shard and announced.
abbrev pub target : (Str → Bool) → (ℤ → Str) → List TxAnn → Str → Option Str
target in_own names anns a = if in_own a then first_target names anns a else none

abbrev pub or_else : Option Str → Option Str → Option Str
or_else none before = before
or_else (some t) before = some t

pub or_else-none : (o : Option Str) → or_else o none ≡ o
or_else-none none = refl
or_else-none (some t) = refl

abbrev pub still_own : Option Str → Bool → Bool
still_own none own = own
still_own (some t) own = false

abbrev pub own_of : Leaving → Str → Bool
own_of s = s.tables.shards.account_in_own_shard

-- What one announcement does.
abbrev pub Applied : (ℤ → Str) → TxAnn → Leaving → Leaving → Type 0
Applied names ann s s' =
    ((a : Str)
      → lookup s'.isdelete a ≡ (
          if own_of s ann.address && str_eq ann.address a
          then some (names ann.toshard_id)
          else lookup s.isdelete a))
    × ((a : Str) → own_of s' a ≡ (if str_eq ann.address a then false else own_of s a))

-- What a list of announcements does, in the end.
abbrev pub Decided : (ℤ → Str) → List TxAnn → Leaving → Leaving → Type 0
Decided names anns s s' =
    ((a : Str)
      → lookup s'.isdelete a ≡ or_else (target (own_of s) names anns a) (lookup s.isdelete a))
    × ((a : Str) → own_of s' a ≡ still_own (target (own_of s) names anns a) (own_of s a))

pub leave-Applied :
    (c : ChainConfig) (names : ℤ → Str) (ann : TxAnn) (pool : TxPool) (s : Leaving)
    → own_of s ann.address ≡ true
    → Applied names ann s (leave c names ann pool s)
leave-Applied c names ann pool s own =
    (λ a. rw own (lookup-insert s.isdelete ann.address (names ann.toshard_id) a), λ a. refl)

pub redirect-Applied :
    (names : ℤ → Str) (ann : TxAnn) (s : Leaving)
    → own_of s ann.address ≡ false
    → Applied names ann s (redirect ann s)
redirect-Applied names ann s away = (
  λ a. rw away refl,
  λ a. elim (Bool-cases (str_eq ann.address a)) [
    | inl e ↦ rw e (ap (own_of s) (sym (str_eq_sound ann.address a e)) ∙ away)
    | inr e ↦ rw e refl
  ],
)

if_none : (b : Bool) → ◌≡◌ {A = Option Str} (if b then none else none) none
if_none true = refl
if_none false = refl

pub nil-Decided : (names : ℤ → Str) (s : Leaving) → Decided names [] s s
nil-Decided names s = (λ a. rw (if_none (own_of s a)) refl, λ a. rw (if_none (own_of s a)) refl)

pub cons-Decided :
    (names : ℤ → Str) (ann : TxAnn) (anns : List TxAnn) (s s₁ s₂ : Leaving)
    → Applied names ann s s₁
    → Decided names anns s₁ s₂
    → Decided names (ann ∷ anns) s s₂
cons-Decided names ann anns s s₁ s₂ (del, own) (dels, owns) =
    let same : (a : Str) → str_eq ann.address a ≡ true → own_of s ann.address ≡ own_of s a =
      λ a e. ap (own_of s) (str_eq_sound ann.address a e) in
    (
      λ a. elim (Bool-cases (str_eq ann.address a)) [
        | inl e ↦ ground (arith, e, same a e, del a, own a, dels a)
        | inr e ↦ ground (arith, e, del a, own a, dels a)
      ],
      λ a. elim (Bool-cases (str_eq ann.address a)) [
        | inl e ↦ ground (arith, e, own a, owns a)
        | inr e ↦ ground (arith, e, own a, owns a)
      ],
    )
