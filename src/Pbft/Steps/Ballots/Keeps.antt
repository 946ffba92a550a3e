-- ===== src/Pbft/Steps/Ballots/Keeps.antt =====
-- The handlers and the parts of them that cast no vote.
use block_preempt.Prelude.{
  ℕ, suc, ◌-◌, ◌≡◌, refl, ◌∙◌, Bool, not, Option, none, some, if◌then◌else◌,
}
use block_preempt.Trie.Nibbles.{Bytes}
use block_preempt.Account.Hex.{Str, str_eq}
use block_preempt.Pbft.Node.{
  Kind, block, epoch_change, acc_state, unknown, Request, PrePrepare, RequestBlocks, SendBlocks,
  done, Ledger, Codec, get_digest, is_leader, store, wrong_sequence, broadcast,
}
use block_preempt.Pbft.Handlers.{
  Replica, unlock_sequence, lock_sequence, lock_epoch, test_request, accept, has_pool,
  handle_pre_prepare, apply_block, apply_states, spropose, commit1, collect_blocks, send_blocks,
  handle_request_block, add_blocks, handle_send_block, propose, propose1, acquire,
}
use block_preempt.Pbft.Outcomes.{Holds, Holds-▸, Holds-or_die, Holds-if, trivial}
use block_preempt.Pbft.Steps.Ballots.{
  Ballot, ballot, Keeps, unlock_sequence-Keeps, lock_sequence-Keeps, release-Keeps,
}

module _ (E : Ledger) (codec : Codec) (stop : Bool) where
  abbrev N : Type 0
  N = Replica E codec stop

  pub apply_states-Keeps :
      (b : Ballot) (c : Bytes) (p : N) → Keeps b p → Holds (Keeps b) (apply_states E codec stop c p)
  unfolding apply_states
  apply_states-Keeps b c p h =
      Holds-or_die (Keeps b) (E.commit_states (is_leader p) c p.cur_chain) _
        (λ t. Holds-if (Keeps b) (is_leader p) _ _ (unlock_sequence-Keeps b _ h) h)

  pub apply_block-Keeps :
      (b : Ballot) (c : Bytes) (p : N) → Keeps b p → Holds (Keeps b) (apply_block E codec stop c p)
  unfolding apply_block
  apply_block-Keeps b c p h = Holds-or_die (Keeps b) (E.decode_block c) _ (λ x.
      Holds-or_die (Keeps b) (E.add_block x p.cur_chain) _ (λ s.
        Holds-or_die (Keeps b) (if is_leader p then E.after_block x p.sequence_id s else some s) _
          (λ t. h)))

  spropose-Keeps :
      (b : Ballot) (o : Option Bytes) (p : N)
      → Keeps b p
      → Holds (Keeps b) (spropose E codec stop o p)
  unfolding spropose
  spropose-Keeps b none p h = h
  spropose-Keeps b (some c) p h =
      Holds-▸ (Keeps b) (Keeps b) (lock_sequence p) _ (lock_sequence-Keeps b p h)
        (λ q k. apply_states-Keeps b c q k)

  pub commit1-Keeps :
      (b : Ballot) (k : Kind) (c : Bytes) (p : N)
      → Keeps b p
      → Holds (Keeps b) (commit1 E codec stop k c p)
  unfolding commit1
  commit1-Keeps b block c p h =
      Holds-▸ (Keeps b) (Keeps b) (apply_block E codec stop c p) _ (apply_block-Keeps b c p h)
        (λ q i. release-Keeps b stop (record q { sequence_id = suc q.sequence_id }) i)
  commit1-Keeps b epoch_change c p h =
      Holds-or_die (Keeps b) (E.commit_epoch (is_leader p) c p.cur_chain) _ (λ r.
        Holds-if (Keeps b) (is_leader p) _ _
          (Holds-▸ (Keeps b) (Keeps b) (unlock_sequence _) _ (unlock_sequence-Keeps b _ h)
            (λ q i. spropose-Keeps b r.0 q i))
          h)
  commit1-Keeps b acc_state c p h = apply_states-Keeps b c p h
  commit1-Keeps b unknown c p h = apply_states-Keeps b c p h

  pub acquire-Keeps : (b : Ballot) (p : N) → Keeps b p → Holds (Keeps b) (acquire E codec stop p)
  unfolding acquire
  acquire-Keeps b p h =
      Holds-▸ (Keeps b) (Keeps b) (if stop then lock_epoch p else done p) _
        (Holds-if (Keeps b) stop _ _ (Holds-if (Keeps b) p.epoch_lock _ _ tt h) h)
        (λ q i. lock_sequence-Keeps b q i)

  pub propose-Keeps :
      (b : Ballot) (now random : ℕ) (p : N)
      → Keeps b p
      → Holds (Keeps b) (propose E codec stop now random p)
  unfolding propose broadcast
  propose-Keeps b now random p h =
      Holds-or_die (Keeps b) (E.generate_block p.sequence_id p.cur_chain) _ (λ g. h)

  pub propose1-Keeps : (b : Ballot) (p : N) → Keeps b p → Holds (Keeps b) (propose1 E codec stop p)
  unfolding propose1
  propose1-Keeps b p h =
      Holds-or_die (Keeps b) (E.generate_block p.sequence_id p.cur_chain) _
        (λ g. commit1-Keeps b block g.0 (record p { cur_chain = g.1 }) h)

  ballot-store : (k : Kind) (d : Str) (r : Request) (p : N) → ballot p ≡ ballot (store k d r p)
  ballot-store block d r p = refl
  ballot-store epoch_change d r p = refl
  ballot-store acc_state d r p = refl
  ballot-store unknown d r p = refl

  pub pre_prepare-Keeps :
      (b : Ballot) (pp : PrePrepare) (p : N)
      → Keeps b p
      → Holds (Keeps b) (handle_pre_prepare E codec stop pp p)
  unfolding handle_pre_prepare accept broadcast
  pre_prepare-Keeps b pp p h =
      Holds-if (Keeps b) (not (str_eq (get_digest codec pp.request_message) pp.digest)) _ _ h (
        Holds-if (Keeps b) (wrong_sequence stop pp.kind pp.sequence_id p) _ _ h (
          Holds-▸ (λ v. Unit) (Keeps b)
            (test_request E codec stop pp.kind pp.request_message.content) _
            (trivial (test_request E codec stop pp.kind pp.request_message.content))
            (λ v u.
              Holds-if (Keeps b) v _ _
                (Holds-if (Keeps b) (has_pool E codec stop pp.kind) _ _
                  (h ∙ ballot-store pp.kind pp.digest pp.request_message p) tt)
                h)))

  pub request_block-Keeps :
      (b : Ballot) (rb : RequestBlocks) (p : N)
      → Keeps b p
      → Holds (Keeps b) (handle_request_block E codec stop rb p)
  unfolding handle_request_block send_blocks
  request_block-Keeps b rb p h =
      Holds-▸ (λ bs. Unit) (Keeps b)
        (collect_blocks E codec stop rb.start_id (suc rb.end_id - rb.start_id) p) _ (trivial _)
        (λ bs u. h)

  pub send_block-Keeps :
      (b : Ballot) (sb : SendBlocks E.Block) (p : N)
      → Keeps b p
      → Holds (Keeps b) (handle_send_block E codec stop sb p)
  unfolding handle_send_block
  send_block-Keeps b sb p h =
      Holds-▸ (λ s. Unit) (Keeps b)
        (add_blocks E codec stop sb.blocks 0 (suc sb.end_id - sb.start_id) p.cur_chain) _
        (trivial _) (λ s u. Holds-if (Keeps b) p.request_lock _ _ h tt)
