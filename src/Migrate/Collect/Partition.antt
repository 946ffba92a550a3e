-- ===== src/Migrate/Collect/Partition.antt =====
-- What the loop over the queue collects, and where it puts it.
use mathlib.Core.List.{append_assoc, append-nil}
use block_preempt.Prelude.{
  ◌≡◌, refl, sym, ap, ◌∙◌, Bool, true, false, none, some, List, [], ◌∷◌, ◌++◌, ◌==◌, ==_iff,
  Bool-cases, Option-cases, inl, inr,
}
use block_preempt.Account.Hex.{Str}
use block_preempt.Account.Table.{lookup}
use block_preempt.Core.TxPool.{TxPool, Ref}
use block_preempt.Migrate.{Caps, add_pending-Adds, entry, pending, has_entry, here, gains}
use block_preempt.Migrate.Collect.{
  IsDelete, Collecting, second_half, collect_at, mark_rec_lock, collect_queue, keep,
}
use block_preempt.Migrate.Collect.Places.{
  Place, collect_place, leaves_with, collect_recipients-place, leaves_with-leaves,
}

-- Each account that leaves has its entry in `cAps`, as the loop over the announcements makes it.
abbrev pub Registered : IsDelete → Caps → Type 0
Registered isdelete caps =
    (addr shard : Str) → lookup isdelete addr ≡ some shard → has_entry caps shard addr ≡ true

abbrev is_leaving : Place → Bool
is_leaving none = false
is_leaving (some p) = true

abbrev is_at : Str → Str → Place → Bool
is_at s a none = false
is_at s a (some p) = here p.0 p.1 s a

-- The transactions of the queue that no account takes along.
abbrev pub staying : (Ref → Place) → List Ref → List Ref
staying place [] = []
staying place (v ∷ queue) = let rest = staying place queue in keep (is_leaving (place v)) v rest

-- Those that the account `a` takes along to the shard `s`, in the order of the queue.
abbrev pub leaving : (Ref → Place) → Str → Str → List Ref → List Ref
leaving place s a [] = []
leaving place s a (v ∷ queue) = gains (is_at s a (place v)) v ++ leaving place s a queue

abbrev pub place_in : IsDelete → Collecting → Ref → Place
place_in isdelete s v = leaves_with isdelete (s.pool.store v)

abbrev Collects : IsDelete → Ref → Place → Collecting → Collecting → Type 0
Collects isdelete v place s s' =
    Registered isdelete s'.caps
    × ((q : Ref) → place_in isdelete s' q ≡ place_in isdelete s q)
    × ((t a : Str) → pending s'.caps t a ≡ pending s.caps t a ++ gains (is_at t a place) v)
    × (s'.pool ≡ record s.pool { store = s'.pool.store })

pub has_entry-some :
    (caps : Caps) (shard addr : Str)
    → has_entry caps shard addr ≡ true
    → (txs : List Ref) × (entry caps shard addr ≡ some txs)
has_entry-some caps shard addr h = elim (Option-cases (entry caps shard addr)) [
  | inl e ↦ let z : false ≡ true = rw (e, has_entry) at h in cc
  | inr (txs, e) ↦ (txs, e)
]

mark_rec_lock-place :
    (isdelete : IsDelete) (v : Ref) (s : Collecting) (q : Ref)
    → place_in isdelete (mark_rec_lock v s) q ≡ place_in isdelete s q
mark_rec_lock-place isdelete v s q = elim (Bool-cases (v == q)) [
  | inl e ↦ rw e (ap (place_in isdelete s) ((==_iff v q).0 e))
  | inr e ↦ rw e refl
]

collect_at-Collects :
    (isdelete : IsDelete) (v : Ref) (s : Collecting) (p : Str × Str)
    → Registered isdelete s.caps
    → lookup isdelete p.1 ≡ some p.0
    → (s' : Collecting) × (collect_at p.0 p.1 v s ≡ some (true, s'))
      × Collects isdelete v (some p) s s'
collect_at-Collects isdelete v s p reg h =
    let (txs, e) = has_entry-some s.caps p.0 p.1 (reg p.1 p.0 h) in
    let (caps', e', adds) = add_pending-Adds s.caps p.0 p.1 v txs e in
    (
      record s { caps = caps' },
      rw e' refl,
      (
        λ addr shard l. (adds shard addr).1 (reg addr shard l),
        λ q. refl,
        λ t a. (adds t a).0,
        refl,
      ),
    )

collect_place-Collects :
    (isdelete : IsDelete) (v : Ref) (s : Collecting) (place : Place) (half : Bool)
    → Registered isdelete s.caps
    → ((shard addr : Str) → place ≡ some (shard, addr) → lookup isdelete addr ≡ some shard)
    → (s' : Collecting) × (collect_place place half v s ≡ some (is_leaving place, s'))
      × Collects isdelete v place s s'
collect_place-Collects isdelete v s none half reg h =
    (s, refl, (reg, λ q. refl, λ t a. sym (append-nil (pending s.caps t a)), refl))
collect_place-Collects isdelete v s (some p) false reg h =
    collect_at-Collects isdelete v s p reg (h p.0 p.1 refl)
collect_place-Collects isdelete v s (some p) true reg h =
    let (s', e, (reg', places, adds, only)) =
      collect_at-Collects isdelete v (mark_rec_lock v s) p reg (h p.0 p.1 refl) in
    (s', e, (reg', λ q. places q ∙ mark_rec_lock-place isdelete v s q, adds, only))

staying-ext :
    (f g : Ref → Place) (queue : List Ref)
    → ((q : Ref) → f q ≡ g q)
    → staying f queue ≡ staying g queue
staying-ext f g [] h = refl
staying-ext f g (v ∷ queue) h = rw (h v) (ap (keep (is_leaving (g v)) v) (staying-ext f g queue h))

leaving-ext :
    (f g : Ref → Place) (s a : Str) (queue : List Ref)
    → ((q : Ref) → f q ≡ g q)
    → leaving f s a queue ≡ leaving g s a queue
leaving-ext f g s a [] h = refl
leaving-ext f g s a (v ∷ queue) h =
    rw (h v) (ap (λ l. gains (is_at s a (g v)) v ++ l) (leaving-ext f g s a queue h))

-- With an entry in `cAps` for each account that leaves, the loop over the queue does not panic. What it
-- keeps are the transactions that no leaving account takes along, in their order, and each account is
-- given those that it takes along, in their order, behind what it had: first halves go with their
-- sender, second halves with the first of their recipients that leaves. The accounts
-- keep their entries, and of the pool only the objects are written to.
pub collect_queue-partition :
    (isdelete : IsDelete) (queue : List Ref) (s : Collecting)
    → Registered isdelete s.caps
    → (kept : List Ref) × (s' : Collecting) × (collect_queue isdelete queue s ≡ some (kept, s'))
      × (kept ≡ staying (place_in isdelete s) queue)
      × ((t a : Str)
          → pending s'.caps t a ≡ pending s.caps t a ++ leaving (place_in isdelete s) t a queue)
      × Registered isdelete s'.caps
      × (s'.pool ≡ record s.pool { store = s'.pool.store })
unfolding collect_queue
collect_queue-partition isdelete [] s reg =
    ([], s, refl, refl, λ t a. sym (append-nil (pending s.caps t a)), reg, refl)
collect_queue-partition isdelete (v ∷ queue) s reg =
    let place = leaves_with isdelete (s.pool.store v) in
    let (s₁, e₁, (reg₁, places, adds, only₁)) =
      collect_place-Collects isdelete v s place (second_half (s.pool.store v)) reg
        (leaves_with-leaves isdelete (s.pool.store v)) in
    let (kept, s₂, e₂, stays, goes, reg₂, only₂) = collect_queue-partition isdelete queue s₁ reg₁ in
    (
      keep (is_leaving place) v kept,
      s₂,
      rw (collect_recipients-place isdelete v s) (rw e₁ (rw e₂ refl)),
      ap (keep (is_leaving place) v)
          (stays ∙ staying-ext (place_in isdelete s₁) (place_in isdelete s) queue places),
      λ t a.
          goes t a
          ∙ ap (λ l. l ++ leaving (place_in isdelete s₁) t a queue) (adds t a)
          ∙ append_assoc (pending s.caps t a) (gains (is_at t a place) v)
              (leaving (place_in isdelete s₁) t a queue)
          ∙ ap (λ l. pending s.caps t a ++ (gains (is_at t a place) v ++ l))
              (leaving-ext (place_in isdelete s₁) (place_in isdelete s) t a queue places),
      reg₂,
      only₂ ∙ ap {A = TxPool} (λ p. record p { store = s₂.pool.store }) only₁,
    )
