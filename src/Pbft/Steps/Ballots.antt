-- ===== src/Pbft/Steps/Ballots.antt =====
-- The votes of a node: what each event does to them.
pub mod Keeps
pub mod Counts
pub mod Casts
use block_preempt.Prelude.{
  ℕ, suc, ◌-◌, ◌*◌, ◌≤◌, ◌<◌, ◌≡◌, refl, sym, ap, ◌∙◌, subst, Bool, true, false, not, ◌&&◌, Option,
  none, some, List, [], ◌∷◌, length, leb, ltb, ltb→lt, if◌then◌else◌, Bool-cases, inl, inr, arith,
}
use block_preempt.Trie.Nibbles.{Bytes}
use block_preempt.Account.Hex.{Str, str_eq}
use block_preempt.Account.Table.{lookup, insert}
use block_preempt.Pbft.Node.{
  Kind, block, epoch_change, acc_state, unknown, Request, PrePrepare, Vote, RequestBlocks,
  SendBlocks, Message, pre_prepare, prepare, commit, request_block, send_block, Outcome, done,
  waits, dies, ◌▸◌, or_die, Ledger, Pbft, Codec, get_digest, is_set, votes, votes-insert_self,
  malicious_num, is_leader, pool_of, store, wrong_sequence, broadcast, set_pre_pare_confirm_map,
  set_commit_confirm_map, request_blocks,
}
use block_preempt.Pbft.Handlers.{
  Replica, is_block_valid, unlock_sequence, unlock_epoch, unlock_request, lock_request,
  lock_sequence, lock_epoch, release, mark_reply, test_request, accept, handle_pre_prepare,
  try_commit, handle_prepare, apply_block, apply_states, spropose, commit1, fall_behind,
  handle_commit, collect_blocks, send_blocks, handle_request_block, add_blocks, handle_send_block,
  propose, propose1, acquire,
}
use block_preempt.Pbft.Steps.{Event, receives, proposes, settles, step}
use block_preempt.Pbft.Outcomes.{Holds, Holds-▸, Holds-or_die, Holds-if, trivial}

pub record Ballot : Type 0 where
  pub prepares : List (Str × List (Str × Bool))
  pub commits : List (Str × List (Str × Bool))
  pub bordcast : List (Str × Bool)
  pub replied : List (Str × Bool)

abbrev pub vote_for : Vote → List (Str × List (Str × Bool)) → List (Str × List (Str × Bool))
vote_for v t = insert t v.digest (insert (votes t v.digest) v.node_id true)

-- A prepare is counted, and the commit is broadcast where that makes enough of them.
abbrev pub count_prepare : Vote → Ballot → Ballot
count_prepare v b =
    let c : Ballot = record b { prepares = vote_for v b.prepares } in
    if leb (2 * malicious_num) (length (votes c.prepares v.digest))
      && not (is_set b.bordcast v.digest)
    then record c { bordcast = insert b.bordcast v.digest true }
    else c

abbrev pub count_commit : Vote → Ballot → Ballot
count_commit v b = record b { commits = vote_for v b.commits }

-- What an event may do to the votes.
pub data Cast {B : Type 0} : Event B → Ballot → Ballot → Type 0 where
  idle : {e : Event B} {b : Ballot} → Cast e b b
  prepared : {b : Ballot} (v : Vote) → Cast (receives (prepare v)) b (count_prepare v b)
  committed : {b : Ballot} (v : Vote) → Cast (receives (commit v)) b (count_commit v b)
  replies :
      {b : Ballot} (v : Vote)
      → malicious_num * 2 < length (votes (count_commit v b).commits v.digest)
      → Cast
          (receives (commit v))
          b
          (record (count_commit v b) { replied = insert b.replied v.digest true })

module _ {B S : Type 0} where
  abbrev pub ballot : Pbft B S → Ballot
  ballot p = record {
    prepares = p.pre_pare_confirm_count;
    commits = p.commit_confirm_count;
    bordcast = p.is_commit_bordcast;
    replied = p.is_reply;
  }

  -- The votes are those of `b`.
  abbrev pub Keeps : Ballot → Pbft B S → Type 0
  Keeps b q = b ≡ ballot q

  pub unlock_sequence-Keeps :
      (b : Ballot) (p : Pbft B S) → Keeps b p → Holds (Keeps b) (unlock_sequence p)
  unlock_sequence-Keeps b p h = Holds-if (Keeps b) p.sequence_lock _ _ h tt

  pub unlock_epoch-Keeps :
      (b : Ballot) (p : Pbft B S) → Keeps b p → Holds (Keeps b) (unlock_epoch p)
  unlock_epoch-Keeps b p h = Holds-if (Keeps b) p.epoch_lock _ _ h tt

  pub lock_sequence-Keeps :
      (b : Ballot) (p : Pbft B S) → Keeps b p → Holds (Keeps b) (lock_sequence p)
  lock_sequence-Keeps b p h = Holds-if (Keeps b) p.sequence_lock _ _ tt h

  pub release-Keeps :
      (b : Ballot) (stop : Bool) (p : Pbft B S) → Keeps b p → Holds (Keeps b) (release stop p)
  unfolding release
  release-Keeps b stop p h =
      Holds-if (Keeps b) (is_leader p) _ _
        (Holds-▸ (Keeps b) (Keeps b) (unlock_sequence p) _ (unlock_sequence-Keeps b p h)
          (λ q k. Holds-if (Keeps b) stop _ _ (unlock_epoch-Keeps b q k) k))
        h
