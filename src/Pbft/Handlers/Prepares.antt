-- ===== src/Pbft/Handlers/Prepares.antt =====
-- The prepares for one request, one delivered after the other.
use block_preempt.Prelude.{
  ℕ, ◌*◌, ◌≡◌, refl, ap, ◌∙◌, Bool, true, false, not, ◌&&◌, ◌||◌, some, List, [], ◌∷◌, length, leb,
  Bool-cases, inl, inr, arith,
}
use block_preempt.Account.Hex.{Str}
use block_preempt.Account.Table.{lookup, insert, length-insert}
use block_preempt.Pbft.Distinct.{distinct, insert_all, length-insert_all, fresh-nil}
use block_preempt.Pbft.Node.{
  Kind, Request, Vote, Outcome, done, ◌▸◌, Ledger, Codec, is_set, votes, malicious_num, pool_of,
  wrong_sequence, broadcast, set_pre_pare_confirm_map, is_set-insert_self, votes-insert_self,
}
use block_preempt.Pbft.Handlers.{Replica, try_commit, handle_prepare}

module _ (E : Ledger) (codec : Codec) (stop : Bool) (d : Str) (n : ℕ) (k : Kind) where
  abbrev pub vote : Str → Vote
  vote i = record { digest = d; sequence_id = n; node_id = i; kind = k }

  -- Prepares for the digest from the nodes `is`, in that order.
  unfoldable pub deliver : List Str → Replica E codec stop → Outcome (Replica E codec stop)
  deliver [] p = done p
  deliver (i ∷ is) p = handle_prepare E codec stop (vote i) p ▸ λ q. deliver is q

  -- The node has the request, in its present sequence, and has broadcast its commit if and only if
  -- it has counted enough prepares.
  pub record Counting (p : Replica E codec stop) : Type 0 where
    pub held : (r : Request) × (lookup (pool_of k p) d ≡ some r)
    pub current : wrong_sequence stop k n p ≡ false
    pub counted :
        is_set p.is_commit_bordcast d
        ≡ leb (2 * malicious_num) (length (votes p.pre_pare_confirm_count d))

  counts : Str → Replica E codec stop → Replica E codec stop
  counts i p = try_commit E codec stop (vote i) (set_pre_pare_confirm_map d i true p)

  handle_prepare-held :
      (i : Str) (p : Replica E codec stop)
      → Counting p
      → handle_prepare E codec stop (vote i) p ≡ done (counts i p)
  unfolding handle_prepare counts
  handle_prepare-held i p c = let (r, e) = c.held in rw e (rw (c.current) refl)

  abbrev enough : Str → Replica E codec stop → Bool
  enough i p =
      leb (2 * malicious_num)
        (length (votes (set_pre_pare_confirm_map d i true p).pre_pare_confirm_count d))
      && not (is_set p.is_commit_bordcast d)

  pool-counts : (i : Str) (p : Replica E codec stop) → pool_of k (counts i p) ≡ pool_of k p
  unfolding counts try_commit set_pre_pare_confirm_map broadcast
  pool-counts i p = ground arith

  wrong_sequence-counts :
      (i : Str) (p : Replica E codec stop)
      → wrong_sequence stop k n (counts i p) ≡ wrong_sequence stop k n p
  unfolding counts try_commit set_pre_pare_confirm_map broadcast
  wrong_sequence-counts i p = ground arith

  votes-counts :
      (i : Str) (p : Replica E codec stop)
      → votes (counts i p).pre_pare_confirm_count d
        ≡ insert (votes p.pre_pare_confirm_count d) i true
  unfolding counts try_commit set_pre_pare_confirm_map broadcast
  votes-counts i p = elim (Bool-cases (enough i p)) [
    | inl e ↦ rw e (votes-insert_self _ d _)
    | inr e ↦ rw e (votes-insert_self _ d _)
  ]

  bordcast-counts :
      (i : Str) (p : Replica E codec stop)
      → is_set (counts i p).is_commit_bordcast d ≡ (
          leb (2 * malicious_num) (length (insert (votes p.pre_pare_confirm_count d) i true))
          || is_set p.is_commit_bordcast d)
  unfolding counts try_commit set_pre_pare_confirm_map broadcast
  bordcast-counts i p =
      let many =
        votes-insert_self p.pre_pare_confirm_count d
          (insert (votes p.pre_pare_confirm_count d) i true) in
      elim (Bool-cases (enough i p)) [
        | inl e ↦
            rw e (rw (is_set-insert_self p.is_commit_bordcast d true) (ground (arith, e, many)))
        | inr e ↦ rw e (ground (arith, e, many))
      ]

  Counting-counts : (i : Str) (p : Replica E codec stop) → Counting p → Counting (counts i p)
  Counting-counts i p c = record {
    held = let (r, e) = c.held in (r, rw (pool-counts i p) e);
    current = wrong_sequence-counts i p ∙ c.current;
    counted = rw (votes-counts i p) (
        rw (bordcast-counts i p) (
          rw (c.counted)
            (ground (arith, length-insert (votes p.pre_pare_confirm_count d) i true))));
  }

  -- Prepares change the votes for prepares, the mark of the broadcast and the messages sent, and nothing
  -- else.
  abbrev pub OnlyPrepares : Replica E codec stop → Replica E codec stop → Type 0
  OnlyPrepares p q = q ≡ record p {
    pre_pare_confirm_count = q.pre_pare_confirm_count;
    is_commit_bordcast = q.is_commit_bordcast;
    sent = q.sent;
  }

  counts-OnlyPrepares : (i : Str) (p : Replica E codec stop) → OnlyPrepares p (counts i p)
  unfolding counts try_commit set_pre_pare_confirm_map broadcast
  counts-OnlyPrepares i p = elim (Bool-cases (enough i p)) [ inl e ↦ rw e refl | inr e ↦ rw e refl ]

  OnlyPrepares-trans :
      (p q r : Replica E codec stop) → OnlyPrepares p q → OnlyPrepares q r → OnlyPrepares p r
  OnlyPrepares-trans p q r h g =
      g
      ∙ ap
          (λ (x : Replica E codec stop). record x {
            pre_pare_confirm_count = r.pre_pare_confirm_count;
            is_commit_bordcast = r.is_commit_bordcast;
            sent = r.sent;
          })
          h

  abbrev Delivered : List Str → Replica E codec stop → Replica E codec stop → Type 0
  Delivered is p q =
      (deliver is p ≡ done q)
      × (Counting q
          × ((votes q.pre_pare_confirm_count d ≡ insert_all (votes p.pre_pare_confirm_count d) is)
              × OnlyPrepares p q))

  deliver-Counting :
      (is : List Str) (p : Replica E codec stop)
      → Counting p
      → (q : Replica E codec stop) × Delivered is p q
  unfolding deliver
  deliver-Counting [] p c = (p, (refl, (c, (refl, refl))))
  deliver-Counting (i ∷ is) p c =
      let (q, (e, (cq, (v, only)))) = deliver-Counting is (counts i p) (Counting-counts i p c) in
      (
        q,
        (
          rw (handle_prepare-held i p c) e,
          (
            cq,
            (
              rw (votes-counts i p) at v,
              OnlyPrepares-trans p (counts i p) q (counts-OnlyPrepares i p) only,
            ),
          ),
        ),
      )

  -- The same, and what the prepares leave alone.
  pub deliver-quorum :
      (is : List Str) (p : Replica E codec stop)
      → ((r : Request) × (lookup (pool_of k p) d ≡ some r))
      → wrong_sequence stop k n p ≡ false
      → votes p.pre_pare_confirm_count d ≡ []
      → is_set p.is_commit_bordcast d ≡ false
      → (q : Replica E codec stop) × (deliver is p ≡ done q)
        × (is_set q.is_commit_bordcast d ≡ leb (2 * malicious_num) (distinct is))
        × OnlyPrepares p q
  deliver-quorum is p held current new quiet =
      let c : Counting p = record {
        held = held;
        current = current;
        counted = rw new (rw quiet refl);
      } in
      let (q, (e, (cq, (v, only)))) = deliver-Counting is p c in
      let size : length (votes q.pre_pare_confirm_count d) ≡ distinct is =
        rw v (rw new (omega (arith, length-insert_all [] is, fresh-nil is))) in
      (q, e, rw size at (cq.counted), only)
