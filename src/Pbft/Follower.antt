-- ===== src/Pbft/Follower.antt =====
-- The consensus on the chain of chain/blockchain.go: `Ledger` with AddBlock, and what a follower does
-- with a settled block. Of a decoded block it holds what
-- AddBlock reads: the number and the root of its header and its transactions.
use block_preempt.Prelude.{ℕ, suc, ◌≡◌, refl, ◌∙◌, Bool, false, Option, List}
use block_preempt.Prelude.Int.{ℤ}
use block_preempt.Params.{ChainConfig}
use block_preempt.Trie.Nibbles.{Bytes}
use block_preempt.Core.TxPool.{Ref}
use block_preempt.Chain.StateDb.{StateDb}
use block_preempt.Chain.Generate.{Migrations}
use block_preempt.Chain.Update.{World}
use block_preempt.Chain.AddBlock.{Tables, add_block}
use block_preempt.Pbft.Node.{block, done, ◌▸◌, or_die, Ledger, Codec, is_leader}
use block_preempt.Pbft.Outcomes.{▸-ext, ▸-assoc}
use block_preempt.Pbft.Handlers.{Replica, release, apply_block, commit1}

pub record Block : Type 0 where
  pub number : ℕ
  pub state_root : Bytes
  pub transactions : List Ref
  pub migrations : Migrations

module _ (db : StateDb) (c : ChainConfig) (own : ℤ) (root : db.S → Bytes) where
  abbrev pub ChainState : Type 0
  ChainState = World db c own × Tables

  -- What the consensus takes from elsewhere: the decoding of a block and the leader's side.
  pub record Leader : Type 0 where
    pub decode_block : Bytes → Option Block
    pub after_block : Block → ℕ → ChainState → Option ChainState
    pub generate_block : ℕ → ChainState → Option (Bytes × ChainState)
    pub commit_epoch : Bool → Bytes → ChainState → Option (Option Bytes × ChainState)
    pub commit_states : Bool → Bytes → ChainState → Option ChainState

  abbrev pub add : Block → ChainState → Option ChainState
  add b s = add_block db c own root b.number b.state_root b.transactions b.migrations s

  abbrev pub chain_ledger : Leader → Ledger
  chain_ledger l = record {
    Block = Block;
    State = ChainState;
    decode_block = l.decode_block;
    add_block = add;
    after_block = l.after_block;
    generate_block = l.generate_block;
    commit_epoch = l.commit_epoch;
    commit_states = l.commit_states;
  }

  -- A node other than the leader settles a block by AddBlock alone, and goes on to the next number.
  pub commit1_follower :
      (l : Leader) (codec : Codec) (stop : Bool) (content : Bytes)
      (p : Replica (chain_ledger l) codec stop)
      → is_leader p ≡ false
      → commit1 (chain_ledger l) codec stop block content p ≡ (
          or_die (l.decode_block content) ▸ λ b. or_die (add b p.cur_chain) ▸ λ s.
          done (record p { cur_chain = s; sequence_id = suc p.sequence_id }))
  unfolding commit1 release apply_block
  commit1_follower l codec stop content p h =
      ▸-assoc (or_die (l.decode_block content)) _ _
      ∙ ▸-ext (or_die (l.decode_block content)) _ _ (λ b.
        ▸-assoc (or_die (add b p.cur_chain)) _ _
        ∙ ▸-ext (or_die (add b p.cur_chain)) _ _ (λ s. rw h (rw h refl)))
