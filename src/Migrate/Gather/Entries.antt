-- ===== src/Migrate/Gather/Entries.antt =====
-- What `gather` makes of the entries of `cAps`.
use block_preempt.Prelude.{
  ◌≡◌, refl, sym, ap, ◌∙◌, Option, none, some, some_inj, List, [], ◌∷◌, ◌++◌, Bool-cases,
  Option-cases, inl, inr,
}
use block_preempt.Account.Hex.{Str, str_eq, str_eq_sound, str_eq-false}
use block_preempt.Account.Table.{lookup}
use block_preempt.Core.TxPool.{Ref, Pools, delete_at}
use block_preempt.Migrate.{Caps, Pendings, entry}
use block_preempt.Migrate.Under.{AllUnder}
use block_preempt.Migrate.Gather.{gather_pendings, gather}

abbrev pub with_more : Option (List Ref) → List Ref → Option (List Ref)
with_more none more = none
with_more (some txs) more = some (txs ++ more)

gather_pendings-lookup :
    (ps : Pendings) (pools : Pools) (a : Str)
    → lookup (gather_pendings ps pools).0 a ≡ with_more (lookup ps a) (pools a)
unfolding gather_pendings
gather_pendings-lookup [] pools a = refl
gather_pendings-lookup ((b, txs) ∷ rest) pools a = elim (Bool-cases (str_eq b a)) [
  | inl e ↦ rw e (rw (str_eq_sound b a e) refl)
  | inr e ↦
      let same : delete_at pools b a ≡ pools a = rw e refl in
      rw e (gather_pendings-lookup rest (delete_at pools b) a ∙ ap (with_more (lookup rest a)) same)
]

gather_pendings-others :
    (ps : Pendings) (pools : Pools) (a : Str)
    → lookup ps a ≡ none
    → (gather_pendings ps pools).1 a ≡ pools a
unfolding gather_pendings
gather_pendings-others [] pools a h = refl
gather_pendings-others ((b, txs) ∷ rest) pools a h = elim (Bool-cases (str_eq b a)) [
  | inl e ↦ let z : some txs ≡ none = rw e at h in cc
  | inr e ↦
      let same : delete_at pools b a ≡ pools a = rw e refl in
      gather_pendings-others rest (delete_at pools b) a (rw e at h) ∙ same
]

-- An account that leaves for the shard `t` is given what waits for it.
pub gather-entry :
    (isdelete : List (Str × Str)) (caps : Caps) (pools : Pools) (t a : Str)
    → AllUnder isdelete caps
    → lookup isdelete a ≡ some t
    → entry (gather caps pools).0 t a ≡ with_more (entry caps t a) (pools a)
unfolding gather
gather-entry isdelete [] pools t a h l = refl
gather-entry isdelete ((shard, ps) ∷ rest) pools t a (h, hs) l =
    elim (Bool-cases (str_eq shard t)) [
      | inl e ↦ rw (e, entry) (gather_pendings-lookup ps pools a)
      | inr e ↦
          let absent : lookup ps a ≡ none = elim (Option-cases (lookup ps a)) [
            | inl q ↦ q
            | inr (txs, q) ↦
                let same : shard ≡ t = some_inj (sym (h a txs q) ∙ l) in
                absurd (str_eq-false shard t e same)
          ] in
          rw (e, entry)
            (gather-entry isdelete rest (gather_pendings ps pools).1 t a hs l
              ∙ ap (with_more (entry rest t a)) (gather_pendings-others ps pools a absent))
    ]

with_more-some :
    (o : Option (List Ref)) (more txs : List Ref)
    → with_more o more ≡ some txs
    → (before : List Ref) × (o ≡ some before)
with_more-some none more txs e = cc
with_more-some (some before) more txs e = (before, refl)

pub gather-AllUnder :
    (isdelete : List (Str × Str)) (caps : Caps) (pools : Pools)
    → AllUnder isdelete caps
    → AllUnder isdelete (gather caps pools).0
unfolding gather
gather-AllUnder isdelete [] pools h = tt
gather-AllUnder isdelete ((shard, ps) ∷ rest) pools (h, hs) = (
  λ a txs e.
      let (before, e') =
        with_more-some (lookup ps a) (pools a) txs (sym (gather_pendings-lookup ps pools a) ∙ e) in
      h a before e',
  gather-AllUnder isdelete rest (gather_pendings ps pools).1 hs,
)
