-- ===== src/Pbft/Steps/Quorum.antt =====
-- What a node's broadcasts and replies rest on: votes of different nodes that it received.
use block_preempt.Prelude.{
  ℕ, ◌*◌, ◌≤◌, ◌<◌, ◌≡◌, Bool, true, List, [], ◌∷◌, length, if◌then◌else◌, Bool-cases, inl, inr,
  arith,
}
use block_preempt.Account.Hex.{Str, str_eq}
use block_preempt.Pbft.Distinct.{distinct}
use block_preempt.Pbft.Node.{
  pre_prepare, prepare, commit, request_block, send_block, Ledger, Codec, is_set, votes,
  malicious_num,
}
use block_preempt.Pbft.Handlers.{Replica, new_pbft}
use block_preempt.Pbft.Steps.{Event, receives, proposes, settles, Reach, start, later}
use block_preempt.Pbft.Outcomes.{Holds-done}
use block_preempt.Pbft.Steps.Voters.{
  Heard, Heard-nil, Heard-skip, Heard-size, Heard-vote, length-vote,
}
use block_preempt.Pbft.Steps.Ballots.{Ballot, Cast, idle, prepared, committed, replies, ballot}
use block_preempt.Pbft.Steps.Ballots.Counts.{
  bordcast-count, prepares-count, commits-count, replied-count, replied-reply,
}
use block_preempt.Pbft.Steps.Ballots.Casts.{step-Cast}

module _ {B : Type 0} where
  -- The senders of the prepares, and of the commits, for a digest among the events.
  unfoldable pub prepare_senders : Str → List (Event B) → List Str
  prepare_senders d [] = []
  prepare_senders d (receives (prepare v) ∷ es) =
      let rest = prepare_senders d es in if str_eq v.digest d then v.node_id ∷ rest else rest
  prepare_senders d (_ ∷ es) = prepare_senders d es

  unfoldable pub commit_senders : Str → List (Event B) → List Str
  commit_senders d [] = []
  commit_senders d (receives (commit v) ∷ es) =
      let rest = commit_senders d es in if str_eq v.digest d then v.node_id ∷ rest else rest
  commit_senders d (_ ∷ es) = commit_senders d es

  record Sound (es : List (Event B)) (b : Ballot) : Type 0 where
    prepares : (d : Str) → Heard (votes b.prepares d) (prepare_senders d es)
    commits : (d : Str) → Heard (votes b.commits d) (commit_senders d es)
    bordcast :
        (d : Str) → is_set b.bordcast d ≡ true → 2 * malicious_num ≤ length (votes b.prepares d)
    replied : (d : Str) → is_set b.replied d ≡ true → malicious_num * 2 < length (votes b.commits d)

  -- A further event only adds senders.
  prepares-skip :
      (e : Event B) (es : List (Event B)) (d : Str) {t : List (Str × Bool)}
      → Heard t (prepare_senders d es)
      → Heard t (prepare_senders d (e ∷ es))
  unfolding prepare_senders
  prepares-skip (receives (prepare v)) es d h = elim (Bool-cases (str_eq v.digest d)) [
    | inl e ↦ rw e (Heard-skip v.node_id h)
    | inr e ↦ rw e h
  ]
  prepares-skip (receives (pre_prepare pp)) es d h = h
  prepares-skip (receives (commit v)) es d h = h
  prepares-skip (receives (request_block rb)) es d h = h
  prepares-skip (receives (send_block sb)) es d h = h
  prepares-skip (proposes now random) es d h = h
  prepares-skip settles es d h = h

  commits-skip :
      (e : Event B) (es : List (Event B)) (d : Str) {t : List (Str × Bool)}
      → Heard t (commit_senders d es)
      → Heard t (commit_senders d (e ∷ es))
  unfolding commit_senders
  commits-skip (receives (commit v)) es d h = elim (Bool-cases (str_eq v.digest d)) [
    | inl e ↦ rw e (Heard-skip v.node_id h)
    | inr e ↦ rw e h
  ]
  commits-skip (receives (pre_prepare pp)) es d h = h
  commits-skip (receives (prepare v)) es d h = h
  commits-skip (receives (request_block rb)) es d h = h
  commits-skip (receives (send_block sb)) es d h = h
  commits-skip (proposes now random) es d h = h
  commits-skip settles es d h = h

  Sound-Cast :
      (e : Event B) (es : List (Event B)) (b b' : Ballot)
      → Cast e b b'
      → Sound es b
      → Sound (e ∷ es) b'
  unfolding prepare_senders commit_senders
  Sound-Cast e es b _ idle s = record {
    prepares = λ d. prepares-skip e es d (s.prepares d);
    commits = λ d. commits-skip e es d (s.commits d);
    bordcast = s.bordcast;
    replied = s.replied;
  }
  Sound-Cast _ es b _ (prepared v) s = record {
    prepares = λ d.
        rw (prepares-count v b) (Heard-vote v d b.prepares (prepare_senders d es) (s.prepares d));
    commits = λ d. rw (commits-count v b) (s.commits d);
    bordcast = bordcast-count v b s.bordcast;
    replied = λ d e. rw (commits-count v b) (s.replied d (rw (replied-count v b) at e));
  }
  Sound-Cast _ es b _ (committed v) s = record {
    prepares = s.prepares;
    commits = λ d. Heard-vote v d b.commits (commit_senders d es) (s.commits d);
    bordcast = s.bordcast;
    replied = λ d e. omega (arith, s.replied d e, length-vote v d b.commits);
  }
  Sound-Cast _ es b _ (replies v h) s = record {
    prepares = s.prepares;
    commits = λ d. Heard-vote v d b.commits (commit_senders d es) (s.commits d);
    bordcast = s.bordcast;
    replied = replied-reply v b s.replied h;
  }

module _ (E : Ledger) (codec : Codec) (stop : Bool) where
  Reach-Sound :
      {id : Str} {table : List Str} {number : ℕ} {s : E.State} {es : List (Event E.Block)}
      {p : Replica E codec stop}
      → Reach E codec stop id table number s es p
      → Sound es (ballot p)
  unfolding new_pbft prepare_senders commit_senders
  Reach-Sound start = record {
    prepares = λ d. Heard-nil;
    commits = λ d. Heard-nil;
    bordcast = λ d e. cc;
    replied = λ d e. cc;
  }
  Reach-Sound (later {es = es} {p = p} {q = q} e r h) =
      Sound-Cast e es (ballot p) (ballot q)
        (Holds-done (λ x. Cast e (ballot p) (ballot x)) (step-Cast E codec stop e p) h)
        (Reach-Sound r)

  -- Whatever messages a node receives and whatever it proposes, in any order: a digest that it has
  -- marked as replied was committed by at least 2f + 1 different senders among those messages.
  pub Reach-replied :
      {id : Str} {table : List Str} {number : ℕ} {s : E.State} {es : List (Event E.Block)}
      {p : Replica E codec stop}
      → Reach E codec stop id table number s es p
      → (d : Str) → is_set p.is_reply d ≡ true
      → 2 * malicious_num < distinct (commit_senders d es)
  Reach-replied r d e =
      let s = Reach-Sound r in omega (arith, s.replied d e, Heard-size (s.commits d))
