-- ===== src/Migrate/Messages/Handshake.antt =====
-- The two exchanges of a migration: a request goes to the shard that the account moves to, and that
-- shard's announcement comes to all others.
use mathlib.Core.List.{append_assoc, append-nil}
use block_preempt.Prelude.{
  ℕ, ◌<◌, ◌≡◌, refl, sym, ap, ◌∙◌, Bool, true, false, not, ◌&&◌, ◌||◌, Option, some, List, [], ◌∷◌,
  ◌++◌, length, get_or, set, replicate, length-set, length-replicate, get_elem?-get_or,
  get_or-replicate, get_or-push, ◌==◌, if◌then◌else◌, Bool-cases, inl, inr, arith,
}
use block_preempt.Prelude.Int.{ℤ, pos}
use block_preempt.Params.{ChainConfig}
use block_preempt.Trie.Nibbles.{Bytes}
use block_preempt.Account.Hex.{Str, str_eq, str_eq_refl, str_eq_sound, decode_string}
use block_preempt.Account.State.{AccountState}
use block_preempt.Account.Shards.{eq_ℤ, assign}
use block_preempt.Core.Migration.{ProofDb, TxMig1, TxMig2, TxAnn}
use block_preempt.Core.Pools.{add}
use block_preempt.Core.Pools.Fetch.{add_all-append}
use block_preempt.Migrate.Messages.{
  make_mig2, mig2_loop, try_txmig1, outgoing, append_to, handle_mig2, try_announce, Announcing,
  announce_one, handle_announce,
}

module _ (prove_mig : TxMig1 → ProofDb) (prove_state : Bytes → ProofDb)
    (state : Bytes → Option AccountState) (c : ChainConfig) (own : ℤ) (outbalance : Str → Option ℤ)
    (make : TxMig1 → TxMig2) (shard : TxMig1 → ℕ) where
  -- Each account is in the state and has a balance on its way, and `make` is what is sent for it; its
  -- target is one of the first `n` shards.
  abbrev pub AllReady : ℕ → List TxMig1 → Type 0
  AllReady n [] = Unit
  AllReady n (v ∷ vs) =
      ((make_mig2 prove_mig prove_state state c own outbalance v ≡ some (make v))
        × (v.toshard_id ≡ pos (shard v))
        × (shard v < n))
      × AllReady n vs

  -- What is made for the accounts that move to shard `k`, in order.
  abbrev pub made_for : ℕ → List TxMig1 → List TxMig2
  made_for k [] = []
  made_for k (v ∷ vs) = let rest = made_for k vs in if shard v == k then make v ∷ rest else rest

  mig2_loop-made :
      (vs : List TxMig1) (pool : List (List TxMig2))
      → AllReady (length pool) vs
      → (pool' : List (List TxMig2)) × (mig2_loop prove_mig prove_state state c own outbalance vs
            pool
          ≡ some pool')
        × ((k : ℕ) → get_or pool' k [] ≡ get_or pool k [] ++ made_for k vs)
  unfolding mig2_loop
  mig2_loop-made [] pool h = (pool, refl, λ k. sym (append-nil (get_or pool k [])))
  mig2_loop-made (v ∷ vs) pool ((e, to, small), more) =
      let grown = get_or pool (shard v) [] ++ make v ∷ [] in
      let step : append_to v.toshard_id (make v) pool ≡ some (set pool (shard v) grown) =
        ap (λ t. append_to t (make v) pool) to ∙ rw (get_elem?-get_or pool (shard v) small) refl in
      let (pool', e', each) =
        mig2_loop-made vs (set pool (shard v) grown) (rw (length-set pool (shard v) grown) more) in
      (
        pool',
        rw e (rw step e'),
        λ k. each k ∙ get_or-push pool (shard v) k (make v) (made_for k vs) small,
      )

  -- Without the cross-chain experiment, where every account that moves is in the state, has its balance
  -- and a target shard: TryTXmig1 does not panic, and a shard that is not the own one and that an account
  -- moves to takes the requests for it, in order, to the end of its TXmig2 pool by handleMig2.
  pub try_txmig1-handle_mig2 :
      (vs : List TxMig1) (sequence_id : ℕ) (try_out : List (List TxMig2))
      → (c.cross_chain && not c.fail) ≡ false
      → AllReady c.shard_num vs
      → (sent : ℕ → List TxMig2) × (try_txmig1 prove_mig prove_state state c own outbalance vs
            sequence_id try_out
          ≡ some (sent, try_out))
        × ((k : ℕ) (m : TxMig2) (ms : List TxMig2) (pool : List TxMig2)
            → eq_ℤ (pos k) own ≡ false
            → made_for k vs ≡ m ∷ ms
            → handle_mig2 (sent k) pool ≡ some (pool ++ made_for k vs))
  unfolding try_txmig1 handle_mig2
  try_txmig1-handle_mig2 vs sequence_id try_out plain ready =
      let (pool', e, each) =
        mig2_loop-made vs (replicate c.shard_num [])
          (rw (length-replicate {A = List TxMig2} c.shard_num []) ready) in
      (
        outgoing own pool',
        rw plain (rw e refl),
        λ k m ms pool away some_made.
            let sent : outgoing own pool' k ≡ m ∷ ms = rw away (
              each k ∙ ap (λ l. l ++ made_for k vs) (get_or-replicate c.shard_num k) ∙ some_made) in
            rw sent (rw some_made (ap some (add_all-append pool (m ∷ ms)))),
      )

module _ (prove_mig : TxMig2 → ProofDb) (prove_state : Bytes → ProofDb)
    (state : Bytes → Option AccountState) (own : ℤ) where
  -- The announcements tell, in order, the addresses of the accounts that came, and this shard.
  abbrev pub Tells : List TxMig2 → List TxAnn → Type 0
  Tells [] [] = Unit
  Tells [] (a ∷ anns) = ⊥
  Tells (v ∷ vs) [] = ⊥
  Tells (v ∷ vs) (a ∷ anns) =
      ((a.address ≡ v.address) × (a.toshard_id ≡ own) × (a.txmig2 ≡ some v)) × Tells vs anns

  abbrev pub AllPresent : List TxMig2 → Type 0
  AllPresent [] = Unit
  AllPresent (v ∷ vs) =
      ((a : AccountState) × (state (decode_string v.address) ≡ some a)) × AllPresent vs

  try_announce-Tells :
      (vs : List TxMig2)
      → AllPresent vs
      → (anns : List TxAnn) × (try_announce prove_mig prove_state state own vs ≡ some anns)
        × Tells vs anns
  unfolding try_announce
  try_announce-Tells [] h = ([], refl, tt)
  try_announce-Tells (v ∷ vs) ((a, e), more) =
      let (anns, e', tells) = try_announce-Tells vs more in
      let ann : TxAnn = record {
        txmig2 = some v;
        mp_mig2 = some (prove_mig v);
        state = some a;
        mp_state = some (prove_state (decode_string v.address));
        h = pos 0;
        address = v.address;
        toshard_id = own;
      } in
      (ann ∷ anns, rw e (rw e' refl), ((refl, refl, refl), tells))

abbrev pub announced : List TxAnn → Str → Bool
announced [] a = false
announced (v ∷ vs) a = str_eq v.address a || announced vs a

either_mark : (b own x y : Bool) → (b || own && x || own && y) ≡ (b || own && (x || y))
either_mark b own x y = ground arith

mark :
    (own : Str → Bool) (outing : Str → Bool) (v a : Str)
    → (if own v then assign outing v true else outing) a ≡ (outing a || own a && str_eq v a)
mark own outing v a = elim (Bool-cases (str_eq v a)) [
  | inl e ↦
      let q : v ≡ a = str_eq_sound v a e in
      rw q (elim (Bool-cases (own a)) [
        | inl o ↦ rw o (rw (str_eq_refl a) (ground arith))
        | inr o ↦ rw o (ground arith)
      ])
  | inr e ↦ elim (Bool-cases (own v)) [
    | inl o ↦ rw o (rw e (ground arith))
    | inr o ↦ rw o (rw e (ground arith))
  ]
]

announce_one_lem :
    (v : TxAnn) (s : Announcing)
    → let s' = announce_one v s in
      (s'.txann_pool ≡ s.txann_pool ++ v ∷ [])
      × (s'.tables.shards ≡ s.tables.shards)
      × ((a : Str)
          → s'.tables.outing_after_announce a ≡ (
              s.tables.outing_after_announce a
              || s.tables.shards.account_in_own_shard a && str_eq v.address a))
unfolding announce_one add
announce_one_lem v s =
    let own = s.tables.shards.account_in_own_shard in
    let marks = mark own s.tables.outing_after_announce v.address in
    elim (Bool-cases (own v.address)) [
      | inl o ↦ rw o (
        refl,
        refl,
        λ a.
            ap
              (λ b.
                (if b
                    then assign s.tables.outing_after_announce v.address true
                    else s.tables.outing_after_announce)
                  a)
              (sym o)
            ∙ marks a,
      )
      | inr o ↦ rw o (
        refl,
        refl,
        λ a.
            ap
              (λ b.
                (if b
                    then assign s.tables.outing_after_announce v.address true
                    else s.tables.outing_after_announce)
                  a)
              (sym o)
            ∙ marks a,
      )
    ]

handle_announce-marks :
    (anns : List TxAnn) (s : Announcing)
    → let s' = handle_announce anns s in
      (s'.txann_pool ≡ s.txann_pool ++ anns)
      × (s'.tables.shards ≡ s.tables.shards)
      × ((a : Str)
          → s'.tables.outing_after_announce a ≡ (
              s.tables.outing_after_announce a
              || s.tables.shards.account_in_own_shard a && announced anns a))
unfolding handle_announce
handle_announce-marks [] s = (sym (append-nil s.txann_pool), refl, λ a. ground arith)
handle_announce-marks (v ∷ vs) s =
    let (pool₁, shards₁, marks₁) = announce_one_lem v s in
    let (pool₂, shards₂, marks₂) = handle_announce-marks vs (announce_one v s) in
    (
      pool₂ ∙ ap (λ l. l ++ vs) pool₁ ∙ append_assoc s.txann_pool (v ∷ []) vs,
      shards₂ ∙ shards₁,
      λ a.
          let own = s.tables.shards.account_in_own_shard a in
          marks₂ a
          ∙ ap
              (λ t.
                (announce_one v s).tables.outing_after_announce a
                || t.account_in_own_shard a && announced vs a)
              shards₁
          ∙ ap (λ b. b || own && announced vs a) (marks₁ a)
          ∙ either_mark (s.tables.outing_after_announce a) own (str_eq v.address a)
              (announced vs a),
    )

-- Where the accounts that came are in the state, TryAnnounce makes one announcement for each, in order,
-- with this shard as its new one; and the leader that is told takes all of them to the end of its TXann
-- pool, in order, and marks exactly those of its own accounts that they name, beside the ones marked
-- before.
pub try_announce-handle_announce :
    (prove_mig : TxMig2 → ProofDb) (prove_state : Bytes → ProofDb)
    (state : Bytes → Option AccountState) (own : ℤ) (vs : List TxMig2)
    → AllPresent prove_mig prove_state state own vs
    → (anns : List TxAnn) × (try_announce prove_mig prove_state state own vs ≡ some anns)
      × Tells prove_mig prove_state state own vs anns
      × ((s : Announcing)
          → let s' = handle_announce anns s in
            (s'.txann_pool ≡ s.txann_pool ++ anns)
            × (s'.tables.shards ≡ s.tables.shards)
            × ((a : Str)
                → s'.tables.outing_after_announce a ≡ (
                    s.tables.outing_after_announce a
                    || s.tables.shards.account_in_own_shard a && announced anns a)))
try_announce-handle_announce prove_mig prove_state state own vs present =
    let (anns, e, tells) = try_announce-Tells prove_mig prove_state state own vs present in
    (anns, e, tells, λ s. handle_announce-marks anns s)
