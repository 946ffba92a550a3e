-- ===== src/Pbft/Handlers/CatchUp.antt =====
-- A node that fell behind, and the leader that sends it the blocks.
use block_preempt.Prelude.{
  ℕ, zero, suc, ◌+◌, ◌-◌, ◌≤◌, ◌<◌, ◌≡◌, refl, ap, Bool, true, false, some, List, [], ◌∷◌, length,
  get_elem?, ◌++◌, length-append, arith,
}
use block_preempt.Account.Hex.{Str}
use block_preempt.Account.Table.{lookup}
use block_preempt.Pbft.Node.{
  Request, RequestBlocks, SendBlocks, send_block, Outcome, done, ◌▸◌, or_die, Ledger, Codec,
}
use mathlib.Core.List.{append_assoc}
use block_preempt.Pbft.Outcomes.{▸-ext}
use block_preempt.Pbft.Handlers.{
  Replica, collect_blocks, send_blocks, handle_request_block, add_blocks, handle_send_block,
}

get_elem?-middle :
    {A : Type 0} (before : List A) (b : A) (after : List A)
    → get_elem? (before ++ (b ∷ after)) (length before) ≡ some b
get_elem?-middle [] b after = refl
get_elem?-middle (x ∷ before) b after = get_elem?-middle before b after

module _ (E : Ledger) (codec : Codec) (stop : Bool) where
  -- The reply to a request for blocks.
  abbrev pub reply_to : RequestBlocks → List E.Block → SendBlocks E.Block
  reply_to rb bs = record {
    start_id = rb.start_id;
    end_id = rb.end_id;
    blocks = bs;
    node_id = rb.server_id;
  }

  -- Adding the blocks one after the other.
  abbrev pub add_each : List E.Block → E.State → Outcome E.State
  add_each [] s = done s
  add_each (b ∷ bs) s = or_die (E.add_block b s) ▸ λ t. add_each bs t

  -- The node has a request for the block of a height, under the digest of that height.
  abbrev pub HasBlock : Replica E codec stop → ℕ → E.Block → Type 0
  HasBlock l height b =
      (d : Str) × (r : Request) × (l.height2digest height ≡ some d)
      × (lookup l.message_pool d ≡ some r)
      × (E.decode_block r.content ≡ some b)

  -- The blocks of `n` heights, from `id` on.
  abbrev pub blocks_from : (ℕ → E.Block) → ℕ → ℕ → List E.Block
  blocks_from block_at id zero = []
  blocks_from block_at id (suc n) = block_at id ∷ blocks_from block_at (suc id) n

  length-blocks_from : (block_at : ℕ → E.Block) (id n : ℕ) → length (blocks_from block_at id n) ≡ n
  length-blocks_from block_at id zero = refl
  length-blocks_from block_at id (suc n) = ap suc (length-blocks_from block_at (suc id) n)

  collect_blocks-all :
      (block_at : ℕ → E.Block) (l : Replica E codec stop) (id n : ℕ)
      → ((h : ℕ) → id ≤ h → h < id + n → HasBlock l h (block_at h))
      → collect_blocks E codec stop id n l ≡ done (blocks_from block_at id n)
  unfolding collect_blocks
  collect_blocks-all block_at l id zero has = refl
  collect_blocks-all block_at l id (suc n) has =
      let (d, r, e₁, e₂, e₃) = has id (omega arith) (omega arith) in
      let more =
        collect_blocks-all block_at l (suc id) n
          (λ h lo hi. has h (omega (arith, lo)) (omega (arith, hi))) in
      rw e₁ (rw e₂ (rw e₃ (rw more refl)))

  -- The loop by indices adds what is left of the list.
  add_blocks-all :
      (before bs : List E.Block) (s : E.State)
      → add_blocks E codec stop (before ++ bs) (length before) (length bs) s ≡ add_each bs s
  unfolding add_blocks
  add_blocks-all before [] s = refl
  add_blocks-all before (b ∷ bs) s =
      let size : length (before ++ (b ∷ [])) ≡ suc (length before) =
        omega (arith, length-append before (b ∷ [])) in
      rw (get_elem?-middle before b bs) (
        ▸-ext (or_die (E.add_block b s)) _ _ (λ t.
          rw size at
            (rw (append_assoc before (b ∷ []) bs) at (add_blocks-all (before ++ (b ∷ [])) bs t))))

  add_blocks-counted :
      (bs : List E.Block) (n : ℕ) (s : E.State)
      → length bs ≡ n
      → add_blocks E codec stop bs 0 n s ≡ add_each bs s
  add_blocks-counted bs n s e = rw (← e) (add_blocks-all [] bs s)

  -- Where the leader has a block for each height that a request names: its handler sends those blocks in
  -- the order of their heights, and the handler of the node that waits for them adds them one after the
  -- other, never reads past their end, goes on after the last height and lets the next request through.
  pub handle_send_block-handle_request_block :
      (rb : RequestBlocks) (l p : Replica E codec stop) (block_at : ℕ → E.Block)
      → ((h : ℕ) → rb.start_id ≤ h → h ≤ rb.end_id → HasBlock l h (block_at h))
      → p.request_lock ≡ true
      → let bs = blocks_from block_at rb.start_id (suc rb.end_id - rb.start_id) in
        (handle_request_block E codec stop rb l
          ≡ done (record l { sent = (rb.node_id, send_block (reply_to rb bs)) ∷ l.sent }))
        × (handle_send_block E codec stop (reply_to rb bs) p ≡ (
            add_each bs p.cur_chain ▸ λ s.
            done (record p { cur_chain = s; sequence_id = suc rb.end_id; request_lock = false })))
  unfolding handle_request_block send_blocks handle_send_block
  handle_send_block-handle_request_block rb l p block_at has locked =
      let n = suc rb.end_id - rb.start_id in
      let bs = blocks_from block_at rb.start_id n in
      let found =
        collect_blocks-all block_at l rb.start_id n (λ h lo hi. has h lo (omega (arith, lo, hi))) in
      (
        rw found refl,
        rw (add_blocks-counted bs n p.cur_chain (length-blocks_from block_at rb.start_id n))
            (▸-ext (add_each bs p.cur_chain) _ _ (λ s. rw locked refl)),
      )
