-- ===== src/Migrate/Under.antt =====
-- Where an account stands in `cAps`: under the shard that `isdelete` gives it, and nowhere else.
use block_preempt.Prelude.{
  ◌≡◌, sym, ◌∙◌, none, some, some_inj, List, [], ◌∷◌, ◌++◌, Bool-cases, Option-cases, inl, inr,
}
use block_preempt.Account.Hex.{Str, str_eq, str_eq_sound, str_eq-false}
use block_preempt.Account.Table.{lookup, insert, lookup-insert_ne}
use block_preempt.Core.TxPool.{Ref}
use block_preempt.Migrate.{Caps, Pendings, add_pending, push_pending}

abbrev pub BelongsTo : List (Str × Str) → Str → Pendings → Type 0
BelongsTo isdelete shard pendings =
    (a : Str) (txs : List Ref) → lookup pendings a ≡ some txs → lookup isdelete a ≡ some shard

abbrev pub AllUnder : List (Str × Str) → Caps → Type 0
AllUnder isdelete [] = Unit
AllUnder isdelete ((shard, pendings) ∷ rest) =
    BelongsTo isdelete shard pendings × AllUnder isdelete rest

pub AllUnder-insert :
    (isdelete : List (Str × Str)) (caps : Caps) (shard : Str) (pendings : Pendings)
    → AllUnder isdelete caps
    → BelongsTo isdelete shard pendings
    → AllUnder isdelete (insert caps shard pendings)
AllUnder-insert isdelete [] shard pendings h b = (b, tt)
AllUnder-insert isdelete ((k, ps) ∷ rest) shard pendings (h, hs) b =
    elim (Bool-cases (str_eq k shard)) [
      | inl e ↦ rw e ((λ a txs q. rw (str_eq_sound k shard e) (b a txs q)), hs)
      | inr e ↦ rw e (h, AllUnder-insert isdelete rest shard pendings hs b)
    ]

pub AllUnder-weaken :
    (isdelete isdelete' : List (Str × Str)) (caps : Caps)
    → ((a t : Str) → lookup isdelete a ≡ some t → lookup isdelete' a ≡ some t)
    → AllUnder isdelete caps
    → AllUnder isdelete' caps
AllUnder-weaken isdelete isdelete' [] f h = tt
AllUnder-weaken isdelete isdelete' ((shard, ps) ∷ rest) f (h, hs) =
    (λ a txs e. f a shard (h a txs e), AllUnder-weaken isdelete isdelete' rest f hs)

pub AllUnder-lookup :
    (isdelete : List (Str × Str)) (caps : Caps) (shard : Str) (pendings : Pendings)
    → AllUnder isdelete caps
    → lookup caps shard ≡ some pendings
    → BelongsTo isdelete shard pendings
AllUnder-lookup isdelete [] shard pendings h e = cc
AllUnder-lookup isdelete ((k, ps) ∷ rest) shard pendings (h, hs) e =
    elim (Bool-cases (str_eq k shard)) [
      | inl q ↦
          let same : some ps ≡ some pendings = rw q at e in
          λ a txs l. rw (sym (str_eq_sound k shard q)) (h a txs (rw (some_inj same) l))
      | inr q ↦ AllUnder-lookup isdelete rest shard pendings hs (rw q at e)
    ]

pub add_pending-AllUnder :
    (isdelete : List (Str × Str)) (shard addr : Str) (v : Ref) (caps caps' : Caps)
    → AllUnder isdelete caps
    → add_pending shard addr v caps ≡ some caps'
    → AllUnder isdelete caps'
unfolding add_pending
add_pending-AllUnder isdelete shard addr v caps caps' h e =
    elim (Option-cases (lookup caps shard)) [
      | inl q ↦ let z : none ≡ some caps' = rw q at e in cc
      | inr (ps, q) ↦ elim (Option-cases (lookup ps addr)) [
        | inl q' ↦ let z : none ≡ some caps' = rw q' at (rw q at e) in cc
        | inr (txs, q') ↦
            let done : some (push_pending caps shard ps addr v txs) ≡ some caps' =
              rw q' at (rw q at e) in
            let under = AllUnder-lookup isdelete caps shard ps h q in
            rw (sym (some_inj done)) (
              AllUnder-insert isdelete caps shard (insert ps addr (txs ++ v ∷ [])) h (λ a txs' l.
                elim (Bool-cases (str_eq addr a)) [
                  | inl w ↦ rw (sym (str_eq_sound addr a w)) (under addr txs q')
                  | inr w ↦
                      under a txs' (
                        sym (lookup-insert_ne ps addr a (txs ++ v ∷ []) (str_eq-false addr a w))
                        ∙ l)
                ]))
      ]
    ]
