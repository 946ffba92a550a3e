-- ===== src/Pbft/Steps/Round.antt =====
-- A round of the three phases, as a follower sees it: the proposal, the prepares and the commits.
use block_preempt.Prelude.{ℕ, Bool, List}
use block_preempt.Account.Hex.{Str}
use block_preempt.Pbft.Node.{block, Request, PrePrepare, Outcome, ◌▸◌, Ledger, Codec}
use block_preempt.Pbft.Handlers.{Replica, handle_pre_prepare}
use block_preempt.Pbft.Handlers.Prepares.{OnlyPrepares}
use block_preempt.Pbft.Handlers.Prepares
use block_preempt.Pbft.Steps.Commits

module _ (E : Ledger) (codec : Codec) (stop : Bool) where
  abbrev N : Type 0
  N = Replica E codec stop

  abbrev pub proposal : Request → Str → ℕ → PrePrepare
  proposal r d n = record { request_message = r; digest = d; sequence_id = n; kind = block }

  -- The proposal of a block, then prepares from `is`, then commits from `js`.
  unfoldable pub round : Request → Str → ℕ → List Str → List Str → N → Outcome N
  round r d n is js p = handle_pre_prepare E codec stop (proposal r d n) p ▸ λ q.
      Prepares.deliver E codec stop d n block is q ▸ λ q'.
      Commits.deliver E codec stop d n block js q'
