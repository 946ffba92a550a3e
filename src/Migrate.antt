-- ===== src/Migrate.antt =====
-- pbft/handleanns.go, PBFTforMigrate.go, pbft.go and cmd.go: the migration of accounts between shards.
-- Here stands what they share: the pending transactions collected for each target shard and address.
pub mod Collect
mod Samples
pub mod Examples
pub mod Receive
pub mod SendOut
pub mod Messages
pub mod Sure
pub mod Aggregate
mod Under
pub mod Gather
pub mod Anns
use block_preempt.Prelude.{
  ◌≡◌, refl, sym, Bool, true, false, ◌&&◌, Option, none, some, List, [], ◌∷◌, ◌++◌, if◌then◌else◌,
  ◌>>=◌, Bool-cases, Option-cases, inl, inr,
}
use mathlib.Core.List.{append-nil}
use block_preempt.Account.Hex.{Str, str_eq, str_eq_sound}
use block_preempt.Account.Table.{lookup, insert, lookup-insert}
use block_preempt.Core.TxPool.{Ref}

-- `map[string]*ChangeAndPending`. The handlers set the field `PendingTxs` only.
abbrev pub Pendings : Type 0
Pendings = List (Str × List Ref)

-- `map[ToShard][Addr]*ChangeAndPending`
abbrev pub Caps : Type 0
Caps = List (Str × Pendings)

abbrev pub push_pending : Caps → Str → Pendings → Str → Ref → List Ref → Caps
push_pending caps shard pendings addr v txs =
    insert caps shard (insert pendings addr (txs ++ v ∷ []))

-- `cAps[shard][addr].PendingTxs = append(…, tx)`: without an entry the pointer is nil, a panic.
unfoldable pub add_pending : Str → Str → Ref → Caps → Option Caps
add_pending shard addr v caps = lookup caps shard >>= λ pendings.
    lookup pendings addr >>= λ txs. some (push_pending caps shard pendings addr v txs)

abbrev pub txs_of : Option (List Ref) → List Ref
txs_of none = []
txs_of (some txs) = txs

abbrev pub entry_in : Option Pendings → Str → Option (List Ref)
entry_in none addr = none
entry_in (some pendings) addr = lookup pendings addr

-- `cAps[shard][addr]`
abbrev pub entry : Caps → Str → Str → Option (List Ref)
entry caps shard addr = entry_in (lookup caps shard) addr

abbrev pub pending : Caps → Str → Str → List Ref
pending caps shard addr = txs_of (entry caps shard addr)

abbrev pub has_value : Option (List Ref) → Bool
has_value none = false
has_value (some txs) = true

abbrev pub has_entry : Caps → Str → Str → Bool
has_entry caps shard addr = has_value (entry caps shard addr)

abbrev pub here : Str → Str → Str → Str → Bool
here shard addr s a = str_eq shard s && str_eq addr a

entry-push_pending :
    (caps : Caps) (shard addr : Str) (v : Ref) (pendings : Pendings) (txs : List Ref) (s a : Str)
    → lookup caps shard ≡ some pendings
    → entry (push_pending caps shard pendings addr v txs) s a
      ≡ (if here shard addr s a then some (txs ++ v ∷ []) else entry caps s a)
entry-push_pending caps shard addr v pendings txs s a e =
    rw (lookup-insert caps shard (insert pendings addr (txs ++ v ∷ [])) s)
      (elim (Bool-cases (str_eq shard s)) [
        | inl q ↦ rw q (
            rw (sym (str_eq_sound shard s q))
              (rw e (lookup-insert pendings addr (txs ++ v ∷ []) a)))
        | inr q ↦ rw q refl
      ])

-- What a transaction added for (shard, addr) makes of the pendings of (s, a).
abbrev pub gains : Bool → Ref → List Ref
gains b v = if b then v ∷ [] else []

here_sound : (shard addr s a : Str) → here shard addr s a ≡ true → (shard ≡ s) × (addr ≡ a)
here_sound shard addr s a h = elim (Bool-cases (str_eq shard s)) [
  | inl q ↦ (str_eq_sound shard s q, str_eq_sound addr a (rw q at h))
  | inr q ↦ let z : false ≡ true = rw q at h in cc
]

pub add_pending-Adds :
    (caps : Caps) (shard addr : Str) (v : Ref) (txs : List Ref)
    → entry caps shard addr ≡ some txs
    → (caps' : Caps) × (add_pending shard addr v caps ≡ some caps')
      × ((s a : Str)
          → (pending caps' s a ≡ pending caps s a ++ gains (here shard addr s a) v)
            × (has_entry caps s a ≡ true → has_entry caps' s a ≡ true))
unfolding add_pending
add_pending-Adds caps shard addr v txs e = elim (Option-cases (lookup caps shard)) [
  | inl q ↦ let z : none ≡ some txs = rw q at e in cc
  | inr (pendings, q) ↦
      let at_addr : lookup pendings addr ≡ some txs = rw q at e in
      let caps' = push_pending caps shard pendings addr v txs in
      (
        caps',
        rw q (rw at_addr refl),
        λ s a.
            let after = entry-push_pending caps shard addr v pendings txs s a q in
            elim (Bool-cases (here shard addr s a)) [
              | inl w ↦
                  let (same, same') = here_sound shard addr s a w in
                  let before : entry caps s a ≡ some txs = rw (sym same) (rw (sym same') e) in
                  (rw after (rw w (rw before refl)), λ h. rw (after, has_entry) (rw w refl))
              | inr w ↦ (
                rw after (rw w (sym (append-nil (pending caps s a)))),
                λ h. rw (after, has_entry) (rw w h),
              )
            ],
      )
]
