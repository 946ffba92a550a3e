-- ===== src/Pbft/FromClient/Examples.antt =====
-- Transactions of a client, for the leader of shard 0 of two.
use block_preempt.Prelude.{
  ℕ, ◌≡◌, refl, true, false, not, Option, none, some, List, [], ◌∷◌, ◌++◌, ◌==◌, if◌then◌else◌,
  arith,
}
use block_preempt.Prelude.Int.{ℤ, pos}
use block_preempt.Params.{ChainConfig, config}
use block_preempt.Account.Hex.{Str, hex, str_eq}
use block_preempt.Account.Shards.{eq_ℤ}
use block_preempt.Core.Transaction.{Transaction2, transaction2}
use block_preempt.Core.TxPool.{Ref, TxPool, Accounts}
use block_preempt.Pbft.FromClient.{in_own, handle_tx_from_client}
use block_preempt.Pbft.FromClient.Once.{those}
use block_preempt.Pbft.FromClient.Overrun.{handle_tx_from_client-overruns}
use block_preempt.Pbft.FromClient.Sends.{handle_tx_from_client-sends}

abbrev at_once : ChainConfig
at_once = record (config (83 ∷ 48 ∷ []) (78 ∷ 48 ∷ []) 2) { not_lock_immediately = false }

abbrev unlocked : Accounts
unlocked = record {
  account_in_own_shard = λ a. true;
  lock_acc = λ a. false;
  outing_acc_before_announce = λ a. false;
}

-- The account 2 is in shard 1, and the others are in shard 0.
abbrev table : Str → Option ℤ
table s = if str_eq s (48 ∷ 50 ∷ []) then some (pos 1) else none

abbrev here : Transaction2
here = transaction2 (1 ∷ []) ((3 ∷ []) ∷ []) (pos 5 ∷ [])

abbrev there : Transaction2
there = transaction2 (2 ∷ []) ((3 ∷ []) ∷ []) (pos 5 ∷ [])

abbrev double : Transaction2
double = transaction2 (1 ∷ []) ((3 ∷ []) ∷ (4 ∷ []) ∷ []) (pos 5 ∷ pos 6 ∷ [])

abbrev store : Ref → Transaction2
store r = if r == 0 then here else if r == 1 then there else double

abbrev pool : TxPool
pool = record {
  store = store;
  next_ref = 3;
  clock = 0;
  queue = [];
  outing_before_announce_tx_pools = λ s. [];
  outing_after_announce_tx_pools = λ s. [];
  locking_tx_pools = λ s. [];
  bank_agg_tx_pools = λ s. [];
}

abbrev kept : List Ref
kept = those (λ v. in_own (pos 0) table (store v)) (0 ∷ 1 ∷ 0 ∷ [])

abbrev others : List Ref
others = those (λ v. not (in_own (pos 0) table (store v))) (0 ∷ 1 ∷ 0 ∷ [])

handle_tx_from_client-sends_example :
    (sent : ℕ → List Ref) × (handle_tx_from_client
        (λ k. pos k)
        at_once
        (pos 0)
        table
        unlocked
        (0 ∷ 1 ∷ 0 ∷ [])
        pool
      ≡ some (record pool { queue = [] ++ kept }, sent))
    × ((k : ℕ) → sent k ≡ (if eq_ℤ (pos k) (pos 0) then [] else those (λ v. 1 == k) others))
unfolding hex
handle_tx_from_client-sends_example =
    handle_tx_from_client-sends (λ k. pos k) at_once (pos 0) table unlocked (λ a. (refl, refl))
      (0 ∷ 1 ∷ 0 ∷ []) pool (refl, (refl, (refl, tt))) (λ v. 1) ((refl, omega arith), tt)

handle_tx_from_client-overruns_example :
    handle_tx_from_client (λ k. pos k) at_once (pos 0) table unlocked (2 ∷ 0 ∷ 0 ∷ []) pool ≡ none
unfolding hex
handle_tx_from_client-overruns_example =
    handle_tx_from_client-overruns (λ k. pos k) at_once (pos 0) table unlocked (λ a. (refl, refl))
      refl 2 (0 ∷ 0 ∷ []) pool refl (omega arith)
