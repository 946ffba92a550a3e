-- ===== src/Pbft/Steps/Commits.antt =====
-- The commits for one request, one delivered after the other.
use block_preempt.Prelude.{ℕ, ◌*◌, ◌≡◌, refl, Bool, true, List, [], ◌∷◌, length, ltb}
use block_preempt.Account.Hex.{Str}
use block_preempt.Pbft.Node.{
  Kind, Vote, Outcome, done, ◌▸◌, Ledger, Codec, votes, malicious_num, set_commit_confirm_map,
}
use block_preempt.Pbft.Handlers.{Replica, handle_commit}

module _ (E : Ledger) (codec : Codec) (stop : Bool) (d : Str) (n : ℕ) (k : Kind) where
  abbrev N : Type 0
  N = Replica E codec stop

  abbrev vote : Str → Vote
  vote i = record { digest = d; sequence_id = n; node_id = i; kind = k }

  -- Commits for the digest from the nodes `is`, in that order.
  unfoldable pub deliver : List Str → N → Outcome N
  deliver [] p = done p
  deliver (i ∷ is) p = handle_commit E codec stop (vote i) p ▸ λ q. deliver is q

  -- The commits of the nodes `is` are noted, and nothing else is done.
  unfoldable pub note : List Str → N → N
  unfolding set_commit_confirm_map
  note [] p = p
  note (i ∷ is) p = note is (set_commit_confirm_map d i true p)

  -- Noting changes the votes for commits only.
  pub note-only :
      (is : List Str) (p : N)
      → note is p ≡ record p { commit_confirm_count = (note is p).commit_confirm_count }
  unfolding note set_commit_confirm_map
  note-only [] p = refl
  note-only (i ∷ is) p = note-only is (set_commit_confirm_map d i true p)

  abbrev many : N → Bool
  many p = ltb (malicious_num * 2) (length (votes p.commit_confirm_count d))
