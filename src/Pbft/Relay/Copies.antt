-- ===== src/Pbft/Relay/Copies.antt =====
-- How many copies of a transaction `TryRelay` sends.
use block_preempt.Prelude.{
  ℕ, ◌<◌, ◌≡◌, refl, sym, ap, ◌∙◌, Option, some, List, [], ◌∷◌, ◌++◌, length, get_or, set,
  replicate, length-set, length-replicate, ◌==◌, if◌then◌else◌, get_elem?-get_or, get_or-replicate,
  get_or-push,
}
use mathlib.Core.List.{append-nil}
use block_preempt.Prelude.Int.{ℤ, pos}
use block_preempt.Params.{ChainConfig}
use block_preempt.Trie.Nibbles.{Bytes}
use block_preempt.Account.Hex.{hex}
use block_preempt.Account.State.{AccountState}
use block_preempt.Account.Shards.{Shards, addr2shard, eq_ℤ}
use block_preempt.Core.Transaction.{Transaction2}
use block_preempt.Pbft.Relay.{
  TxRelay, relay_recipients, relay_txs, message_for, make_relay, try_relay,
}

-- What is appended for each of the recipients.
abbrev pub Made : {A : Type 0} → (Bytes → Option A) → (Bytes → A) → List Bytes → Type 0
Made copy made [] = Unit
Made copy made (r ∷ rs) = (copy r ≡ some (made r)) × Made copy made rs

-- The state has every recipient.
abbrev pub InState : (Bytes → Option AccountState) → (Bytes → AccountState) → List Bytes → Type 0
InState state found rs = Made state found rs

pub Made-always :
    {A : Type 0} (made : Bytes → A) (rs : List Bytes) → Made (λ r. some (made r)) made rs
Made-always made [] = tt
Made-always made (r ∷ rs) = (refl, Made-always made rs)

-- The table has a shard for every recipient, one of the first `n`.
abbrev pub Known : Shards → ℕ → (Bytes → ℕ) → List Bytes → Type 0
Known t n shard [] = Unit
Known t n shard (r ∷ rs) =
    ((t.account2shard (hex r) ≡ some (pos (shard r))) × (shard r < n)) × Known t n shard rs

module _ {A : Type 0} where
  -- One copy for each recipient in shard `k`.
  abbrev pub copies : (Bytes → A) → (Bytes → ℕ) → ℕ → List Bytes → List A
  copies copy shard k [] = []
  copies copy shard k (r ∷ rs) =
      let rest = copies copy shard k rs in if shard r == k then copy r ∷ rest else rest

module _ (c : ChainConfig) (own : ℤ) (shard : Bytes → ℕ) where
  pub addr2shard-Known :
      (t : Shards) (r : Bytes)
      → t.account2shard (hex r) ≡ some (pos (shard r))
      → addr2shard c own (hex r) t ≡ some (pos (shard r), t)
  unfolding addr2shard
  addr2shard-Known t r h = rw h refl

  pub relay_recipients-Known :
      {Proofs : Type 0} (copy : Bytes → Option (TxRelay Proofs)) (made : Bytes → TxRelay Proofs)
      (rs : List Bytes) (t : Shards) (pool : List (List (TxRelay Proofs)))
      → Known t (length pool) shard rs
      → Made copy made rs
      → (pool' : List (List (TxRelay Proofs))) × ((relay_recipients c own copy rs t pool
            ≡ some (t, pool'))
          × ((k : ℕ) → get_or pool' k [] ≡ get_or pool k [] ++ copies made shard k rs))
  unfolding relay_recipients
  relay_recipients-Known copy made [] t pool h m =
      (pool, (refl, λ k. sym (append-nil (get_or pool k []))))
  relay_recipients-Known copy made (r ∷ rs) t pool ((e, small), hs) (m, ms) =
      let next = set pool (shard r) (get_or pool (shard r) [] ++ made r ∷ []) in
      let (pool', (e', each)) =
        relay_recipients-Known copy made rs t next
          (rw (length-set pool (shard r) (get_or pool (shard r) [] ++ made r ∷ [])) hs) ms in
      (
        pool',
        (
          rw (addr2shard-Known t r e) (rw m (rw (get_elem?-get_or pool (shard r) small) e')),
          λ k. each k ∙ get_or-push pool (shard r) k (made r) (copies made shard k rs) small,
        ),
      )

  Made-make_relay :
      {Proofs : Type 0} (prove : Transaction2 → Bytes → Proofs)
      (state : Bytes → Option AccountState) (found : Bytes → AccountState) (v : Transaction2)
      (rs : List Bytes)
      → InState state found rs
      → Made
          (make_relay c own prove state v)
          (λ r. record { txcs = v; proofs = prove v r; state = found r })
          rs
  Made-make_relay prove state found v [] h = tt
  Made-make_relay prove state found v (r ∷ rs) (h, hs) =
      (rw h refl, Made-make_relay prove state found v rs hs)

  -- A transaction whose recipients all have a shard in the table and stand in the state of the sender's
  -- shard: TryRelay does not panic and leaves the table alone, and another shard is sent one copy of the whole transaction for each
  -- recipient that it has, and nothing else.
  pub try_relay-copies :
      {Proofs : Type 0} (prove : Transaction2 → Bytes → Proofs)
      (state : Bytes → Option AccountState) (found : Bytes → AccountState) (v : Transaction2)
      (t : Shards)
      → Known t c.shard_num shard v.recipient
      → InState state found v.recipient
      → (sent : ℕ → List (TxRelay Proofs)) × ((try_relay c own prove state (v ∷ []) t
            ≡ some (t, sent))
          × ((k : ℕ)
              → sent k ≡ (
                  if eq_ℤ (pos k) own
                  then []
                  else copies
                      (λ r. record { txcs = v; proofs = prove v r; state = found r })
                      shard
                      k
                      v.recipient)))
  unfolding try_relay relay_txs
  try_relay-copies {Proofs = Proofs} prove state found v t h stands =
      let copy : Bytes → TxRelay Proofs =
        λ r. record { txcs = v; proofs = prove v r; state = found r } in
      let (pool, (e, each)) =
        relay_recipients-Known (make_relay c own prove state v) copy v.recipient t
          (replicate c.shard_num [])
          (rw (length-replicate {A = List (TxRelay Proofs)} c.shard_num []) h)
          (Made-make_relay prove state found v v.recipient stands) in
      (
        message_for c own pool,
        (
          rw e refl,
          λ k.
              ap (λ l. if eq_ℤ (pos k) own then [] else l)
                (each k
                  ∙ ap (λ l. l ++ copies copy shard k v.recipient)
                      (get_or-replicate c.shard_num k)),
        ),
      )
