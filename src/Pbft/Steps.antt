-- ===== src/Pbft/Steps.antt =====
-- A node as a state machine: the messages that it receives and its own proposals, in any order.
mod Voters
pub mod Ballots
pub mod Quorum
pub mod Commits
pub mod Round
use block_preempt.Prelude.{ℕ, ◌≡◌, Bool, List, [], ◌∷◌}
use block_preempt.Account.Hex.{Str, str_eq}
use block_preempt.Pbft.Node.{
  Kind, Request, PrePrepare, Vote, RequestBlocks, SendBlocks, Message, pre_prepare, prepare, commit,
  request_block, send_block, Outcome, done, ◌▸◌, Ledger, Pbft, Codec,
}
use block_preempt.Pbft.Handlers.{
  Replica, handle_pre_prepare, handle_prepare, handle_commit, handle_request_block,
  handle_send_block, acquire, propose, propose1, new_pbft,
}

-- `proposes` is a round of `Propose` with the three phases, at a time and with a random number;
-- `settles` is one with `propose1`, which the source calls.
pub data Event (B : Type 0) : Type 0 where
  receives : Message B → Event B
  proposes : ℕ → ℕ → Event B
  settles : Event B

module _ (E : Ledger) (codec : Codec) (stop : Bool) where
  unfoldable pub handle : Message E.Block → Replica E codec stop → Outcome (Replica E codec stop)
  handle (pre_prepare pp) p = handle_pre_prepare E codec stop pp p
  handle (prepare v) p = handle_prepare E codec stop v p
  handle (commit v) p = handle_commit E codec stop v p
  handle (request_block rb) p = handle_request_block E codec stop rb p
  handle (send_block sb) p = handle_send_block E codec stop sb p

  unfoldable pub step : Event E.Block → Replica E codec stop → Outcome (Replica E codec stop)
  unfolding handle
  step (receives m) p = handle m p
  step (proposes now random) p = acquire E codec stop p ▸ λ q. propose E codec stop now random q
  step settles p = acquire E codec stop p ▸ λ q. propose1 E codec stop q

  -- What a new node comes to by the events `es`, the latest first.
  pub data Reach (id : Str) (table : List Str) (number : ℕ) (s : E.State)
      : List (Event E.Block) → Replica E codec stop → Type 0 where
    start : Reach id table number s [] (new_pbft id table number s)
    later :
        {es : List (Event E.Block)} {p q : Replica E codec stop} (e : Event E.Block)
        → Reach id table number s es p
        → step e p ≡ done q
        → Reach id table number s (e ∷ es) q
