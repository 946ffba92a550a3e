-- ===== src/Pbft/Handlers.antt =====
-- The handlers of the three phases and of the catch-up, of pbft/pbft.go. A handler is one step: one
-- that would wait for a mutex has done nothing yet.
pub mod Prepares
pub mod CatchUp
use block_preempt.Prelude.{
  ℕ, zero, suc, ◌+◌, ◌-◌, ◌*◌, Bool, true, false, not, ◌&&◌, ◌||◌, Option, none, some, List, [],
  ◌∷◌, length, get_elem?, leb, ltb, ◌==◌, if◌then◌else◌,
}
use block_preempt.Trie.Nibbles.{Bytes}
use block_preempt.Account.Hex.{Str, str_eq}
use block_preempt.Account.Table.{lookup, insert}
use block_preempt.Pbft.Node.{
  Kind, block, epoch_change, acc_state, unknown, Request, PrePrepare, Vote, RequestBlocks,
  SendBlocks, Message, pre_prepare, prepare, commit, send_block, Outcome, done, waits, dies, ◌▸◌,
  or_die, Ledger, Pbft, Codec, get_digest, is_set, votes, malicious_num, is_leader, pool_of, store,
  wrong_sequence, broadcast, set_pre_pare_confirm_map, set_commit_confirm_map, request_blocks,
}

-- The chain's own test of a block.
abbrev pub is_block_valid : {B : Type 0} → B → Bool
is_block_valid b = true

-- `Unlock` of a mutex that is not held is a fatal error, and `Lock` of one that is held waits.
module _ {B S : Type 0} where
  abbrev pub unlock_sequence : Pbft B S → Outcome (Pbft B S)
  unlock_sequence p = if p.sequence_lock then done (record p { sequence_lock = false }) else dies

  abbrev pub unlock_epoch : Pbft B S → Outcome (Pbft B S)
  unlock_epoch p = if p.epoch_lock then done (record p { epoch_lock = false }) else dies

  abbrev pub unlock_request : Pbft B S → Outcome (Pbft B S)
  unlock_request p = if p.request_lock then done (record p { request_lock = false }) else dies

  abbrev pub lock_request : Pbft B S → Outcome (Pbft B S)
  lock_request p = if p.request_lock then waits else done (record p { request_lock = true })

  abbrev pub lock_sequence : Pbft B S → Outcome (Pbft B S)
  lock_sequence p = if p.sequence_lock then waits else done (record p { sequence_lock = true })

  abbrev pub lock_epoch : Pbft B S → Outcome (Pbft B S)
  lock_epoch p = if p.epoch_lock then waits else done (record p { epoch_lock = true })

  -- The leader's release after a block.
  unfoldable pub release : Bool → Pbft B S → Outcome (Pbft B S)
  release stop p =
      if is_leader p
      then (unlock_sequence p ▸ λ q. if stop then unlock_epoch q else done q)
      else done p

  unfoldable pub mark_reply : Str → Pbft B S → Pbft B S
  mark_reply d p = record p { is_reply = insert p.is_reply d true }

module _ (E : Ledger) (codec : Codec) (stop : Bool) where
  abbrev pub Replica : Type 0
  Replica = Pbft E.Block E.State

  -- Only a block is decoded and tested.
  unfoldable pub test_request : Kind → Bytes → Outcome Bool
  test_request block b = or_die (E.decode_block b) ▸ λ x. done (is_block_valid x)
  test_request _ b = done true

  unfoldable pub accept : PrePrepare → Replica → Replica
  unfolding broadcast
  accept pp p =
      broadcast
        (prepare (record {
          digest = pp.digest;
          sequence_id = pp.sequence_id;
          node_id = p.node_id;
          kind = pp.kind;
        }))
        (store pp.kind pp.digest pp.request_message p)

  -- `NewPBFT` makes the maps for changes of the epoch and for states only with `Stop_When_Migrating`; a
  -- write to a nil map is a panic.
  abbrev pub has_pool : Kind → Bool
  has_pool block = true
  has_pool _ = stop

  unfoldable pub handle_pre_prepare : PrePrepare → Replica → Outcome Replica
  unfolding test_request accept
  handle_pre_prepare pp p =
      if not (str_eq (get_digest codec pp.request_message) pp.digest)
      then done p
      else if wrong_sequence stop pp.kind pp.sequence_id p
      then done p
      else (test_request pp.kind pp.request_message.content ▸ λ valid.
          if valid then (if has_pool pp.kind then done (accept pp p) else dies) else done p)

  -- The end of `handlePrepare`, after the vote is counted.
  unfoldable pub try_commit : Vote → Replica → Replica
  unfolding broadcast
  try_commit pre p =
      if leb (2 * malicious_num) (length (votes p.pre_pare_confirm_count pre.digest))
        && not (is_set p.is_commit_bordcast pre.digest)
      then (let q = broadcast (commit (record pre { node_id = p.node_id })) p in
          record q { is_commit_bordcast = insert p.is_commit_bordcast pre.digest true })
      else p

  unfoldable pub handle_prepare : Vote → Replica → Outcome Replica
  unfolding set_pre_pare_confirm_map try_commit
  handle_prepare pre p = elim (lookup (pool_of pre.kind p) pre.digest) [
    | none ↦ done p
    | some r ↦
        if wrong_sequence stop pre.kind pre.sequence_id p
        then done p
        else done (try_commit pre (set_pre_pare_confirm_map pre.digest pre.node_id true p))
  ]

  unfoldable pub apply_block : Bytes → Replica → Outcome Replica
  apply_block content p = or_die (E.decode_block content) ▸ λ b.
      or_die (E.add_block b p.cur_chain) ▸ λ s.
      or_die (if is_leader p then E.after_block b p.sequence_id s else some s) ▸ λ t.
      done (record p { cur_chain = t })

  unfoldable pub apply_states : Bytes → Replica → Outcome Replica
  apply_states content p = or_die (E.commit_states (is_leader p) content p.cur_chain) ▸ λ t.
      let q : Replica = record p { cur_chain = t; ssequence_id = suc p.ssequence_id } in
      if is_leader p then unlock_sequence q else done q

  -- What the leader proposes at once after an epoch change: `spropose`, which commits without votes.
  unfoldable pub spropose : Option Bytes → Replica → Outcome Replica
  unfolding apply_states
  spropose none p = done p
  spropose (some content) p = lock_sequence p ▸ λ q. apply_states content q

  -- `commit1`, and what `handleCommit` does with a request that has its votes.
  unfoldable pub commit1 : Kind → Bytes → Replica → Outcome Replica
  unfolding release apply_block apply_states spropose
  commit1 block content p =
      apply_block content p ▸ λ q. release stop (record q { sequence_id = suc q.sequence_id })
  commit1 epoch_change content p = or_die (E.commit_epoch (is_leader p) content p.cur_chain) ▸ λ r.
      let q : Replica = record p { cur_chain = r.1; msequence_id = suc p.msequence_id } in
      if is_leader p then (unlock_sequence q ▸ λ t. spropose r.0 t) else done q
  commit1 _ content p = apply_states content p

  -- Enough votes for a request that the node does not have.
  unfoldable pub fall_behind : Vote → Kind → Replica → Outcome Replica
  unfolding mark_reply request_blocks
  fall_behind c block p = lock_request (mark_reply c.digest p) ▸ λ q.
      done (request_blocks q.sequence_id c.sequence_id q)
  fall_behind c _ p = done p

  unfoldable pub handle_commit : Vote → Replica → Outcome Replica
  unfolding set_commit_confirm_map mark_reply commit1 fall_behind
  handle_commit c p =
      let q = set_commit_confirm_map c.digest c.node_id true p in
      if ltb (malicious_num * 2) (length (votes q.commit_confirm_count c.digest))
        && not (is_set q.is_reply c.digest)
      then elim (lookup (pool_of c.kind q) c.digest) [
        | none ↦ fall_behind c c.kind q
        | some r ↦ commit1 c.kind r.content (mark_reply c.digest q)
      ]
      else done q

  -- The loop over the heights `id`, …; a height without a digest reads the pool under "".
  unfoldable pub collect_blocks : ℕ → ℕ → Replica → Outcome (List E.Block)
  collect_blocks id zero p = done []
  collect_blocks id (suc n) p =
      or_die (lookup p.message_pool (elim (p.height2digest id) [ none ↦ [] | some d ↦ d ])) ▸ λ r.
      or_die (E.decode_block r.content) ▸ λ b. collect_blocks (suc id) n p ▸ λ bs. done (b ∷ bs)

  unfoldable pub send_blocks : RequestBlocks → List E.Block → Replica → Replica
  send_blocks rb blocks p =
      let s : SendBlocks E.Block = record {
        start_id = rb.start_id;
        end_id = rb.end_id;
        blocks = blocks;
        node_id = rb.server_id;
      } in
      record p { sent = (rb.node_id, send_block s) ∷ p.sent }

  unfoldable pub handle_request_block : RequestBlocks → Replica → Outcome Replica
  unfolding collect_blocks send_blocks
  handle_request_block rb p =
      collect_blocks rb.start_id (suc rb.end_id - rb.start_id) p ▸ λ bs. done (send_blocks rb bs p)

  -- The loop of `handleSendBlock`, from the index `i` of the blocks on.
  unfoldable pub add_blocks : List E.Block → ℕ → ℕ → E.State → Outcome E.State
  add_blocks blocks i zero s = done s
  add_blocks blocks i (suc n) s = or_die (get_elem? blocks i) ▸ λ b.
      or_die (E.add_block b s) ▸ λ t. add_blocks blocks (suc i) n t

  unfoldable pub handle_send_block : SendBlocks E.Block → Replica → Outcome Replica
  unfolding add_blocks
  handle_send_block sb p = add_blocks sb.blocks 0 (suc sb.end_id - sb.start_id) p.cur_chain ▸ λ s.
      unlock_request (record p { cur_chain = s; sequence_id = suc sb.end_id })

  -- The proposal of the three phases; the time and the random number of the request are given.
  unfoldable pub propose : ℕ → ℕ → Replica → Outcome Replica
  unfolding broadcast
  propose now random p = or_die (E.generate_block p.sequence_id p.cur_chain) ▸ λ g.
      let r : Request = record { content = g.0; id = random; timestamp = now } in
      let digest = get_digest codec r in
      let pp : PrePrepare = record {
        request_message = r;
        digest = digest;
        sequence_id = p.sequence_id;
        kind = block;
      } in
      done (
        broadcast (pre_prepare pp) (record p {
          cur_chain = g.1;
          message_pool = insert p.message_pool digest r;
          height2digest = λ h. if h == p.sequence_id then some digest else p.height2digest h;
        }))

  -- The proposal without phases.
  unfoldable pub propose1 : Replica → Outcome Replica
  unfolding commit1
  propose1 p = or_die (E.generate_block p.sequence_id p.cur_chain) ▸ λ g.
      commit1 block g.0 (record p { cur_chain = g.1 })

  -- The mutexes that a round of `Propose` takes.
  unfoldable pub acquire : Replica → Outcome Replica
  acquire p = (if stop then lock_epoch p else done p) ▸ λ q. lock_sequence q

-- `NewPBFT` of a node, on a chain whose current block has the given number.
unfoldable pub new_pbft : {B S : Type 0} → Str → List Str → ℕ → S → Pbft B S
new_pbft node_id node_table number chain = record {
  node_id = node_id;
  cur_chain = chain;
  sequence_id = suc number;
  msequence_id = 0;
  ssequence_id = 0;
  message_pool = [];
  mmessage_pool = [];
  smessage_pool = [];
  pre_pare_confirm_count = [];
  commit_confirm_count = [];
  is_commit_bordcast = [];
  is_reply = [];
  height2digest = λ h. none;
  node_table = node_table;
  sequence_lock = false;
  epoch_lock = false;
  request_lock = false;
  sent = [];
}
