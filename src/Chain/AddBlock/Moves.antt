-- ===== src/Chain/AddBlock/Moves.antt =====
-- Which accounts belong to the shard after a block.
use block_preempt.Prelude.{
  ℕ, ◌≡◌, refl, sym, ap, ◌∙◌, ◌⊎◌, Bool, true, false, ◌&&◌, Option, none, some, some_inj,
  >>=-eq-some, List, [], ◌∷◌, if◌then◌else◌, Bool-cases, inl, inr,
}
use block_preempt.Prelude.Int.{ℤ}
use block_preempt.Params.{ChainConfig}
use block_preempt.Trie.Nibbles.{Bytes}
use block_preempt.Account.Hex.{Str, str_eq, str_eq_refl, str_eq_sound, str_eq_ne}
use block_preempt.Account.Shards.{Shards, assign}
use block_preempt.Core.Migration.{TxMig1, TxMig2, TxAnn}
use block_preempt.Core.TxPool.{Ref}
use block_preempt.Chain.Generate.{Migrations}
use block_preempt.Chain.StateDb.{StateDb}
use block_preempt.Chain.Update.{World}
use block_preempt.Chain.Execute.{get_updated_tree_of_state}
use block_preempt.Chain.AddBlock.{
  Tables, arrive, depart, lock_accounts, add_block_tables, add_block, n0,
}

abbrev pub Announced : Str → List TxAnn → Type 0
Announced a [] = ⊥
Announced a (v ∷ rest) = (v.address ≡ a) ⊎ Announced a rest

abbrev pub Arriving : Str → List TxMig2 → Type 0
Arriving a [] = ⊥
Arriving a (v ∷ rest) = (v.address ≡ a) ⊎ Arriving a rest

assign_self : {A : Type 0} (f : Str → A) (k a : Str) (v : A) → k ≡ a → assign f k v a ≡ v
assign_self f k a v e = rw e (rw (str_eq_refl a) refl)

-- A value that is there already stays, whatever is assigned it.
assign_same : {A : Type 0} (f : Str → A) (k a : Str) (v : A) → f a ≡ v → assign f k v a ≡ v
assign_same f k a v e = elim (Bool-cases (str_eq k a)) [ inl y ↦ rw y refl | inr n ↦ rw n e ]

-- The account is in this shard, or it is not.
abbrev is_own : Tables → Str → Bool
is_own t a = t.shards.account_in_own_shard a

depart-out :
    (c : ChainConfig) (a : Str) (anns : List TxAnn) (t : Tables)
    → Announced a anns ⊎ (is_own t a ≡ false)
    → is_own (depart c anns t) a ≡ false
unfolding depart
depart-out c a [] t (inl h) = elim h [ ]
depart-out c a [] t (inr h) = h
depart-out c a (v ∷ rest) t (inl (inl e)) =
    depart-out c a rest _ (inr (assign_self t.shards.account_in_own_shard v.address a false e))
depart-out c a (v ∷ rest) t (inl (inr h)) = depart-out c a rest _ (inl h)
depart-out c a (v ∷ rest) t (inr h) =
    depart-out c a rest _ (inr (assign_same t.shards.account_in_own_shard v.address a false h))

depart-kept :
    (c : ChainConfig) (a : Str) (anns : List TxAnn) (t : Tables)
    → ¬ Announced a anns
    → is_own (depart c anns t) a ≡ is_own t a
unfolding depart
depart-kept c a [] t h = refl
depart-kept c a (v ∷ rest) t h =
    depart-kept c a rest _ (λ q. h (inr q)) ∙ rw (str_eq_ne v.address a (λ e. h (inl e))) refl

arrive-in :
    (own : ℤ) (a : Str) (ms : List TxMig2) (t : Tables)
    → Arriving a ms ⊎ (is_own t a ≡ true)
    → is_own (arrive own ms t) a ≡ true
unfolding arrive
arrive-in own a [] t (inl h) = elim h [ ]
arrive-in own a [] t (inr h) = h
arrive-in own a (v ∷ rest) t (inl (inl e)) =
    arrive-in own a rest _ (inr (assign_self t.shards.account_in_own_shard v.address a true e))
arrive-in own a (v ∷ rest) t (inl (inr h)) = arrive-in own a rest _ (inl h)
arrive-in own a (v ∷ rest) t (inr h) =
    arrive-in own a rest _ (inr (assign_same t.shards.account_in_own_shard v.address a true h))

lock_accounts-shards : (ms : List TxMig1) (t : Tables) → (lock_accounts ms t).shards ≡ t.shards
unfolding lock_accounts
lock_accounts-shards [] t = refl
lock_accounts-shards (v ∷ rest) t = lock_accounts-shards rest _

shards-if :
    (b : Bool) (x y : Tables) (s : Shards)
    → x.shards ≡ s
    → y.shards ≡ s
    → (if b then x else y).shards ≡ s
shards-if true x y s hx hy = hx
shards-if false x y s hx hy = hy

-- The locks do not touch the tables of shards.
add_block_tables-shards :
    (c : ChainConfig) (own : ℤ) (number : ℕ) (m : Migrations) (t : Tables)
    → c.stop_when_migrating ≡ false
    → str_eq c.node_id n0 ≡ false
    → (add_block_tables c own number m t).shards ≡ (depart c m.anns (arrive own m.mig2s t)).shards
unfolding add_block_tables
add_block_tables-shards c own number m t h₁ h₂ =
    let moved = depart c m.anns (arrive own m.mig2s t) in
    let locked =
      shards-if (c.lock_acc_when_migrating && true) (lock_accounts m.mig1s moved) moved moved.shards
        (lock_accounts-shards m.mig1s moved) refl in
    simp (h₁, h₂) (shards-if _ _ _ moved.shards locked locked)

-- For a node that is not N0 and does not stop for migrations, where `AddBlock` returns: the state has
-- the root that the header carries; an account that the block announces is not in this shard any more;
-- and an account that moves in with the block and is not announced in it is in this shard.
pub add_block_moves :
    (db : StateDb) (c : ChainConfig) (own : ℤ) (root : db.S → Bytes) (number : ℕ)
    (state_root : Bytes) (txs : List Ref) (m : Migrations) (w w' : World db c own) (t t' : Tables)
    → c.stop_when_migrating ≡ false
    → str_eq c.node_id n0 ≡ false
    → add_block db c own root number state_root txs m (w, t) ≡ some (w', t')
    → (root w'.st ≡ state_root)
      × ((a : Str) → Announced a m.anns → t'.shards.account_in_own_shard a ≡ false)
      × ((a : Str)
          → Arriving a m.mig2s
          → ¬ Announced a m.anns
          → t'.shards.account_in_own_shard a ≡ true)
unfolding add_block
add_block_moves db c own root number state_root txs m w w' t t' h₁ h₂ e =
    let tables = add_block_tables c own number m t in
    let (w₁, _, e₂) = >>=-eq-some (get_updated_tree_of_state db c own true txs m w) _ e in
    elim (Bool-cases (str_eq state_root (root w₁.st))) [
      | inl y ↦
          let q : (w₁, tables) ≡ (w', t') = some_inj (rw y at e₂) in
          let shards : t'.shards ≡ (depart c m.anns (arrive own m.mig2s t)).shards =
            sym (ap (λ p. p.1.shards) q) ∙ add_block_tables-shards c own number m t h₁ h₂ in
          (
            sym (ap (λ p. root (p.0.st)) q) ∙ sym (str_eq_sound state_root (root w₁.st) y),
            (λ a h.
                ap (λ s. s.account_in_own_shard a) shards
                ∙ depart-out c a m.anns (arrive own m.mig2s t) (inl h)),
            (λ a h no.
                ap (λ s. s.account_in_own_shard a) shards
                ∙ depart-kept c a m.anns (arrive own m.mig2s t) no
                ∙ arrive-in own a m.mig2s t (inl h)),
          )
      | inr n ↦
          let q : ◌≡◌ {A = Option (World db c own × Tables)} none (some (w', t')) = rw n at e₂ in cc
    ]
