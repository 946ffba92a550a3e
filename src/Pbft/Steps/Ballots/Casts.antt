-- ===== src/Pbft/Steps/Ballots/Casts.antt =====
-- What each event does to the votes of a node.
use block_preempt.Prelude.{
  ◌*◌, ◌<◌, ◌≡◌, refl, subst, Bool, true, not, ◌&&◌, Option, none, some, length, leb, ltb, ltb→lt,
  if◌then◌else◌, Bool-cases, inl, inr,
}
use block_preempt.Account.Table.{lookup, insert}
use block_preempt.Pbft.Node.{
  Kind, block, epoch_change, acc_state, unknown, Request, Vote, pre_prepare, prepare, commit,
  request_block, send_block, Outcome, done, waits, dies, Ledger, Pbft, Codec, is_set, votes,
  malicious_num, pool_of, wrong_sequence, broadcast, set_pre_pare_confirm_map,
  set_commit_confirm_map, request_blocks,
}
use block_preempt.Pbft.Handlers.{
  Replica, lock_request, mark_reply, try_commit, handle_prepare, commit1, fall_behind,
  handle_commit, acquire,
}
use block_preempt.Pbft.Steps.{Event, receives, proposes, settles, step, handle}
use block_preempt.Pbft.Outcomes.{Holds, Holds-▸, Holds-if}
use block_preempt.Pbft.Steps.Ballots.{
  Ballot, vote_for, count_prepare, count_commit, Cast, idle, prepared, committed, replies, ballot,
  Keeps,
}
use block_preempt.Pbft.Steps.Ballots.Counts.{and_left}
use block_preempt.Pbft.Steps.Ballots.Keeps.{
  commit1-Keeps, acquire-Keeps, propose-Keeps, propose1-Keeps, pre_prepare-Keeps,
  request_block-Keeps, send_block-Keeps,
}

module _ {B S : Type 0} where
  Holds-Cast :
      (e : Event B) (b b' : Ballot) (m : Outcome (Pbft B S))
      → Cast e b b'
      → Holds (Keeps b') m
      → Holds (λ q. Cast e b (ballot q)) m
  Holds-Cast e b b' (done q) c h = subst (Cast e b) h c
  Holds-Cast e b b' waits c h = tt
  Holds-Cast e b b' dies c h = tt

module _ (E : Ledger) (codec : Codec) (stop : Bool) where
  abbrev N : Type 0
  N = Replica E codec stop

  abbrev Casts : Event E.Block → N → N → Type 0
  Casts e p q = Cast e (ballot p) (ballot q)

  ballot-try_commit :
      (v : Vote) (p : N)
      → count_prepare v (ballot p)
        ≡ ballot (try_commit E codec stop v (set_pre_pare_confirm_map v.digest v.node_id true p))
  unfolding try_commit set_pre_pare_confirm_map broadcast
  ballot-try_commit v p =
      elim (Bool-cases (
        leb (2 * malicious_num) (length (votes (vote_for v p.pre_pare_confirm_count) v.digest))
        && not (is_set p.is_commit_bordcast v.digest))) [ inl e ↦ rw e refl | inr e ↦ rw e refl ]

  prepare-Cast :
      (v : Vote) (p : N) → Holds (Casts (receives (prepare v)) p) (handle_prepare E codec stop v p)
  unfolding handle_prepare
  prepare-Cast v p = go (lookup (pool_of v.kind p) v.digest)
    where
      go :
          (o : Option Request)
          → Holds (Casts (receives (prepare v)) p) (elim o [
            | none ↦ done p
            | some r ↦
                if wrong_sequence stop v.kind v.sequence_id p
                then done p
                else done
                    (try_commit E codec stop v (set_pre_pare_confirm_map v.digest v.node_id true p))
          ])
      go none = idle
      go (some r) =
          Holds-if (Casts (receives (prepare v)) p) (wrong_sequence stop v.kind v.sequence_id p) _ _
            idle
            (subst (Cast (receives (prepare v)) (ballot p)) (ballot-try_commit v p) (prepared v))

  abbrev replied : Vote → N → Ballot
  replied v p = record (count_commit v (ballot p)) { replied = insert p.is_reply v.digest true }

  fall_behind-Cast :
      (v : Vote) (k : Kind) (p : N)
      → malicious_num * 2 < length (votes (count_commit v (ballot p)).commits v.digest)
      → Holds
          (Casts (receives (commit v)) p)
          (fall_behind E codec stop v k (set_commit_confirm_map v.digest v.node_id true p))
  unfolding fall_behind mark_reply request_blocks set_commit_confirm_map
  fall_behind-Cast v block p h = Holds-Cast _ (ballot p) (replied v p) _ (replies v h) (
      Holds-▸ (Keeps (replied v p)) (Keeps (replied v p)) (lock_request _) _
        (Holds-if (Keeps (replied v p)) p.request_lock _ _ tt refl) (λ q k. k))
  fall_behind-Cast v epoch_change p h = committed v
  fall_behind-Cast v acc_state p h = committed v
  fall_behind-Cast v unknown p h = committed v

  commit-Cast :
      (v : Vote) (p : N) → Holds (Casts (receives (commit v)) p) (handle_commit E codec stop v p)
  unfolding handle_commit mark_reply set_commit_confirm_map
  commit-Cast v p = elim (Bool-cases (many && not (is_set p.is_reply v.digest))) [
    | inl e ↦ rw e (go (ltb→lt _ _ (and_left many _ e)) (lookup (pool_of v.kind q) v.digest))
    | inr e ↦ rw e (committed v)
  ]
    where
      q : N
      q = set_commit_confirm_map v.digest v.node_id true p

      many : Bool
      many = ltb (malicious_num * 2) (length (votes (vote_for v p.commit_confirm_count) v.digest))

      go :
          malicious_num * 2 < length (votes (vote_for v p.commit_confirm_count) v.digest)
          → (o : Option Request)
          → Holds (Casts (receives (commit v)) p) (elim o [
            | none ↦ fall_behind E codec stop v v.kind q
            | some r ↦ commit1 E codec stop v.kind r.content (mark_reply v.digest q)
          ])
      go h none = fall_behind-Cast v v.kind p h
      go h (some r) =
          Holds-Cast _ (ballot p) (replied v p) _ (replies v h)
            (commit1-Keeps E codec stop (replied v p) v.kind r.content (mark_reply v.digest q) refl)

  -- An event casts at most the vote that it brings.
  pub step-Cast : (e : Event E.Block) (p : N) → Holds (Casts e p) (step E codec stop e p)
  unfolding step handle
  step-Cast (receives (pre_prepare pp)) p =
      Holds-Cast _ (ballot p) (ballot p) _ idle
        (pre_prepare-Keeps E codec stop (ballot p) pp p refl)
  step-Cast (receives (prepare v)) p = prepare-Cast v p
  step-Cast (receives (commit v)) p = commit-Cast v p
  step-Cast (receives (request_block rb)) p =
      Holds-Cast _ (ballot p) (ballot p) _ idle
        (request_block-Keeps E codec stop (ballot p) rb p refl)
  step-Cast (receives (send_block sb)) p =
      Holds-Cast _ (ballot p) (ballot p) _ idle (send_block-Keeps E codec stop (ballot p) sb p refl)
  step-Cast (proposes now random) p = Holds-Cast _ (ballot p) (ballot p) _ idle (
      Holds-▸ (Keeps (ballot p)) (Keeps (ballot p)) (acquire E codec stop p) _
        (acquire-Keeps E codec stop (ballot p) p refl)
        (λ q k. propose-Keeps E codec stop (ballot p) now random q k))
  step-Cast settles p = Holds-Cast _ (ballot p) (ballot p) _ idle (
      Holds-▸ (Keeps (ballot p)) (Keeps (ballot p)) (acquire E codec stop p) _
        (acquire-Keeps E codec stop (ballot p) p refl)
        (λ q k. propose1-Keeps E codec stop (ballot p) q k))
