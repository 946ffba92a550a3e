-- ===== src/Pbft/Relay/Examples.antt =====
-- A payment of shard 0 to three accounts, one there and two in shard 1.
use block_preempt.Prelude.{
  ℕ, ◌≡◌, refl, ◌||◌, Option, none, false, some, List, [], ◌∷◌, ◌++◌, if◌then◌else◌, true, arith,
}
use block_preempt.Prelude.Int.{pos, negsuc}
use block_preempt.Params.{ChainConfig, config}
use block_preempt.Trie.Nibbles.{Bytes}
use block_preempt.Account.Hex.{str_eq, hex}
use block_preempt.Account.State.{AccountState}
use block_preempt.Account.Shards.{Shards, eq_ℤ}
use block_preempt.Core.Transaction.{Transaction2, transaction2}
use block_preempt.Core.TxPool.{TxPool, Accounts}
use block_preempt.Pbft.Relay.{TxRelay, try_relay, handle_relay}
use block_preempt.Pbft.Relay.Copies.{copies, try_relay-copies}
use block_preempt.Pbft.Relay.Returns.{handle_relay-returns}

abbrev shipped : ChainConfig
shipped = config (83 ∷ 48 ∷ []) (78 ∷ 48 ∷ []) 2

abbrev shard_of : Bytes → ℕ
shard_of b = if str_eq b (2 ∷ []) then 0 else 1

abbrev shards : Shards
shards = record {
  account2shard = λ s. if str_eq s (48 ∷ 50 ∷ []) then some (pos 0) else some (pos 1);
  account_in_own_shard = λ s. false;
}

abbrev two : Transaction2
two = transaction2 (1 ∷ []) ((2 ∷ []) ∷ (3 ∷ []) ∷ []) (pos 5 ∷ pos 6 ∷ [])

abbrev three : Transaction2
three = transaction2 (1 ∷ []) ((2 ∷ []) ∷ (3 ∷ []) ∷ (4 ∷ []) ∷ []) (pos 5 ∷ pos 6 ∷ pos 7 ∷ [])

abbrev to_bytes : Transaction2 → Bytes → Bytes
to_bytes v r = r

abbrev account : AccountState
account = record { balance = pos 9; migrate = negsuc 0; location = pos 0 }

-- The state has the three recipients only.
abbrev in_state : Bytes → Option AccountState
in_state r =
    if str_eq r (2 ∷ []) || str_eq r (3 ∷ []) || str_eq r (4 ∷ []) then some account else none

abbrev relayed : TxRelay Bytes
relayed = record { txcs = record two { is_relay = true }; proofs = 3 ∷ []; state = account }

abbrev empty_pool : TxPool
empty_pool = record {
  store = λ r. two;
  next_ref = 9;
  clock = 0;
  queue = [];
  outing_before_announce_tx_pools = λ s. [];
  outing_after_announce_tx_pools = λ s. [];
  locking_tx_pools = λ s. [];
  bank_agg_tx_pools = λ s. [];
}

abbrev unlocked : Accounts
unlocked = record {
  account_in_own_shard = λ a. true;
  lock_acc = λ a. false;
  outing_acc_before_announce = λ a. false;
}

try_relay-copies_example :
    (sent : ℕ → List (TxRelay Bytes)) × ((try_relay shipped
          (pos 0)
          to_bytes
          in_state
          (three ∷ [])
          shards
        ≡ some (shards, sent))
      × ((k : ℕ)
          → sent k ≡ (
              if eq_ℤ (pos k) (pos 0)
              then []
              else copies
                  (λ r. record { txcs = three; proofs = r; state = account })
                  shard_of
                  k
                  three.recipient)))
unfolding hex
try_relay-copies_example =
    try_relay-copies shipped (pos 0) shard_of to_bytes in_state (λ r. account) three shards
      ((refl, omega arith), ((refl, omega arith), ((refl, omega arith), tt)))
      (refl, (refl, (refl, tt)))

handle_relay-returns_example :
    ((sent : ℕ → List (TxRelay Bytes)) × ((handle_relay
            (λ k. pos k)
            shipped
            (pos 1)
            unlocked
            (relayed ∷ [])
            empty_pool
            shards
          ≡ some (empty_pool, (shards, sent)))
        × (sent 0 ≡ relayed ∷ [])))
    × ((after : TxPool) × ((sent' : ℕ → List (TxRelay Bytes)) × ((handle_relay
                (λ k. pos k)
                shipped
                (pos 0)
                unlocked
                (relayed ∷ [])
                empty_pool
                shards
              ≡ some (after, (shards, sent')))
            × ((after.queue ≡ empty_pool.queue ++ 9 ∷ []) × ((after.store 9).is_relay ≡ true)))))
unfolding hex
handle_relay-returns_example =
    handle_relay-returns (λ k. pos k) shipped unlocked unlocked shard_of relayed (2 ∷ []) (3 ∷ [])
      empty_pool empty_pool shards shards refl (λ e. omega (arith, e))
      ((refl, omega arith), ((refl, omega arith), tt))
      ((refl, omega arith), ((refl, omega arith), tt)) refl refl
