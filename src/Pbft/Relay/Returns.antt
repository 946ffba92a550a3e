-- ===== src/Pbft/Relay/Returns.antt =====
-- Where a relayed transaction with two recipients ends up.
use block_preempt.Prelude.{
  ℕ, ◌≡◌, refl, sym, ap, ◌∙◌, ◌≢◌, true, false, Option, some, List, [], ◌∷◌, ◌++◌, replicate,
  length-replicate, ◌==◌, if◌then◌else◌, ◌>>=◌, arith, get_or-replicate,
}
use mathlib.Core.List.{append-nil}
use block_preempt.Prelude.Int.{ℤ, pos}
use block_preempt.Params.{ChainConfig}
use block_preempt.Trie.Nibbles.{Bytes}
use block_preempt.Account.Hex.{hex}
use block_preempt.Account.Shards.{Shards, addr2shard, eq_ℤ}
use block_preempt.Core.TxPool.{TxPool, Accounts, add_txs}
use block_preempt.Core.TxPool.Plain.{and_false}
use block_preempt.Pbft.Relay.{
  TxRelay, message_for, relay_again, try_relay2, Relaying, take_relay, pass_relay, place_relay,
  place_relays, handle_relay,
}
use block_preempt.Pbft.Relay.Copies.{
  Known, Made-always, copies, addr2shard-Known, relay_recipients-Known,
}

==_refl : (a : ℕ) → (a == a) ≡ true
==_refl a = ground arith

==_ne : (a b : ℕ) → a ≢ b → (a == b) ≡ false
==_ne a b h = ground (arith, h)

-- A chain whose first step returns.
chain :
    {A B : Type 0} (m : Option A) (f : A → Option B) {a : A} {o : Option B}
    → m ≡ some a
    → f a ≡ o
    → (m >>= f) ≡ o
chain m f e h = rw e h

add_txs-nil : (pool : TxPool) → add_txs pool [] ≡ pool
unfolding add_txs
add_txs-nil pool = ap (λ q. record pool { queue = q }) (append-nil pool.queue)

module _ (now : ℕ → ℤ) (c : ChainConfig) (acc : Accounts) (shard : Bytes → ℕ)
    {Proofs : Type 0} where
  -- One relay that goes on to other shards.
  try_relay2-Known :
      (own : ℤ) (x : TxRelay Proofs) (t : Shards)
      → Known t c.shard_num shard x.txcs.recipient
      → (sent : ℕ → List (TxRelay Proofs)) × ((try_relay2 c own (x ∷ []) t ≡ some (t, sent))
          × ((k : ℕ)
              → sent k
                ≡ (if eq_ℤ (pos k) own then [] else copies (λ r. x) shard k x.txcs.recipient)))
  unfolding try_relay2 relay_again
  try_relay2-Known own x t h =
      let (pool, (e, each)) =
        relay_recipients-Known c own shard (λ r. some x) (λ r. x) x.txcs.recipient t
          (replicate c.shard_num [])
          (rw (length-replicate {A = List (TxRelay Proofs)} c.shard_num []) h)
          (Made-always (λ r. x) x.txcs.recipient) in
      (
        message_for c own pool,
        (
          rw e refl,
          λ k.
              ap (λ l. if eq_ℤ (pos k) own then [] else l)
                (each k
                  ∙ ap (λ l. l ++ copies (λ r. x) shard k x.txcs.recipient)
                      (get_or-replicate c.shard_num k)),
        ),
      )

  place_relay-pass :
      (own : ℤ) (x : TxRelay Proofs) (r : Bytes) (rs : List Bytes) (s : Relaying Proofs)
      → s.shards.account2shard (hex r) ≡ some (pos (shard r))
      → acc.lock_acc (hex r) ≡ false
      → eq_ℤ (pos (shard r)) own ≡ false
      → place_relay now c own acc x (r ∷ rs) s ≡ some (pass_relay now c own acc x s)
  unfolding place_relay
  place_relay-pass own x r rs s e free away =
      chain (addr2shard c own (hex r) s.shards) _ (addr2shard-Known c own shard s.shards r e)
        (simp (free, and_false, away))

  place_relay-take :
      (own : ℤ) (x : TxRelay Proofs) (r : Bytes) (rs : List Bytes) (s : Relaying Proofs)
      → s.shards.account2shard (hex r) ≡ some (pos (shard r))
      → acc.lock_acc (hex r) ≡ false
      → eq_ℤ (pos (shard r)) own ≡ true
      → place_relay now c own acc x (r ∷ rs) s ≡ some (take_relay now c own acc x s)
  unfolding place_relay
  place_relay-take own x r rs s e free here =
      chain (addr2shard c own (hex r) s.shards) _ (addr2shard-Known c own shard s.shards r e)
        (simp (free, and_false, here))

  -- Where the first recipient is of another shard, the pool stays as it is.
  handle_relay-pass :
      (own : ℤ) (x : TxRelay Proofs) (r : Bytes) (rs : List Bytes) (pool : TxPool) (t : Shards)
      (sent : ℕ → List (TxRelay Proofs))
      → x.txcs.recipient ≡ r ∷ rs
      → t.account2shard (hex r) ≡ some (pos (shard r))
      → acc.lock_acc (hex r) ≡ false
      → eq_ℤ (pos (shard r)) own ≡ false
      → try_relay2 c own (x ∷ []) t ≡ some (t, sent)
      → handle_relay now c own acc (x ∷ []) pool t ≡ some (pool, (t, sent))
  unfolding handle_relay
  handle_relay-pass own x r rs pool t sent hr e free away s =
      let s0 : Relaying Proofs = record { pool = pool; shards = t; txcss = []; relaytx2 = [] } in
      let placed : place_relays now c own acc (x ∷ []) s0 ≡ some (pass_relay now c own acc x s0) =
        chain (place_relay now c own acc x x.txcs.recipient s0) _
          (ap (λ l. place_relay now c own acc x l s0) hr
            ∙ place_relay-pass own x r rs s0 e free away)
          refl in
      chain (place_relays now c own acc (x ∷ []) s0) _ placed
        (chain (try_relay2 c own (x ∷ []) t) _ s (ap (λ q. some (q, (t, sent))) (add_txs-nil pool)))

  -- Where it is of this shard, the transaction is queued.
  handle_relay-take :
      (own : ℤ) (x : TxRelay Proofs) (r : Bytes) (rs : List Bytes) (pool : TxPool) (t : Shards)
      → x.txcs.recipient ≡ r ∷ rs
      → t.account2shard (hex r) ≡ some (pos (shard r))
      → acc.lock_acc (hex r) ≡ false
      → eq_ℤ (pos (shard r)) own ≡ true
      → (pool' : TxPool) × ((sent : ℕ → List (TxRelay Proofs)) × ((handle_relay now c own acc
                (x ∷ [])
                pool
                t
              ≡ some (pool', (t, sent)))
            × ((pool'.queue ≡ pool.queue ++ pool.next_ref ∷ [])
                × ((pool'.store pool.next_ref).is_relay ≡ x.txcs.is_relay))))
  unfolding handle_relay
  handle_relay-take own x r rs pool t hr e free here =
      let s0 : Relaying Proofs = record { pool = pool; shards = t; txcss = []; relaytx2 = [] } in
      let s1 : Relaying Proofs = take_relay now c own acc x s0 in
      let placed : place_relays now c own acc (x ∷ []) s0 ≡ some s1 =
        chain (place_relay now c own acc x x.txcs.recipient s0) _
          (ap (λ l. place_relay now c own acc x l s0) hr
            ∙ place_relay-take own x r rs s0 e free here)
          refl in
      (
        add_txs s1.pool s1.txcss,
        (
          message_for c own (replicate c.shard_num []),
          (
            chain (place_relays now c own acc (x ∷ []) s0) _ placed refl,
            (refl, rw (==_refl pool.next_ref) refl),
          ),
        ),
      )

-- A relayed transaction with two recipients of different shards, of which the first is not locked in
-- either, with both in the tables of both shards: the second recipient's shard leaves its pool as it
-- is and sends the transaction to the first recipient's shard, whose handler queues it there, with the
-- relay mark that it came with.
pub handle_relay-returns :
    (now : ℕ → ℤ) (c : ChainConfig) (acc acc' : Accounts) (shard : Bytes → ℕ) {Proofs : Type 0}
    (x : TxRelay Proofs) (r r' : Bytes) (pool pool' : TxPool) (t t' : Shards)
    → x.txcs.recipient ≡ r ∷ r' ∷ []
    → shard r ≢ shard r'
    → Known t c.shard_num shard (r ∷ r' ∷ [])
    → Known t' c.shard_num shard (r ∷ r' ∷ [])
    → acc.lock_acc (hex r) ≡ false
    → acc'.lock_acc (hex r) ≡ false
    → ((sent : ℕ → List (TxRelay Proofs)) × ((handle_relay now c
              (pos (shard r'))
              acc'
              (x ∷ [])
              pool'
              t'
            ≡ some (pool', (t', sent)))
          × (sent (shard r) ≡ x ∷ [])))
      × ((after : TxPool) × ((sent' : ℕ → List (TxRelay Proofs)) × ((handle_relay now c
                  (pos (shard r))
                  acc
                  (x ∷ [])
                  pool
                  t
                ≡ some (after, (t, sent')))
              × ((after.queue ≡ pool.queue ++ pool.next_ref ∷ [])
                  × ((after.store pool.next_ref).is_relay ≡ x.txcs.is_relay)))))
handle_relay-returns now c acc acc' shard x r r' pool pool' t t' hr ne ((k, b), ks) ((k', b'), ks')
      free free' =
    let away = ==_ne (shard r) (shard r') ne in
    let other = ==_ne (shard r') (shard r) (λ q. ne (sym q)) in
    let (sent, (s, each)) =
      try_relay2-Known now c acc' shard (pos (shard r')) x t' (rw hr ((k', b'), ks')) in
    (
      (
        sent,
        (
          handle_relay-pass now c acc' shard (pos (shard r')) x r (r' ∷ []) pool' t' sent hr k'
              free' away s,
          each (shard r) ∙ rw away (rw hr (rw (==_refl (shard r)) (rw other refl))),
        ),
      ),
      handle_relay-take now c acc shard (pos (shard r)) x r (r' ∷ []) pool t hr k free
          (==_refl (shard r)),
    )
