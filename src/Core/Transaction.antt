-- ===== src/Core/Transaction.antt =====
-- core/transaction.go: `Transaction2`, an aggregated transaction with one sender, and the split into
-- single transactions. `*big.Int` and the int64 times are integers; `Encode`, `Hash` and `DecodeTx2`
-- call encoding/gob and crypto/sha256, which are not modelled.
pub mod Splitting
use block_preempt.Prelude.{ℕ, Bool, false, Option, none, some, List, [], ◌∷◌, ◌>>=◌}
use block_preempt.Prelude.Int.{ℤ, pos}
use block_preempt.Trie.Nibbles.{Bytes}

pub record Transaction2 : Type 0 where
  pub sender : Bytes
  pub recipient : List Bytes
  pub tx_hash : Bytes
  pub id : ℕ
  pub success : Bool
  pub is_relay : Bool
  pub sen_lock : Bool
  pub rec_lock : Bool
  pub value : List ℤ
  pub request_time : ℤ
  pub second_request_time : ℤ
  pub commit_time : ℤ
  pub lock_time : ℤ
  pub unlock_time : ℤ
  pub lock_time2 : ℤ
  pub unlock_time2 : ℤ
  pub half_lock : Bool
  pub rec_suppose_on_chain : ℕ
  pub sen_suppose_on_chain : ℕ
  pub relay_lock : Bool

-- A composite literal that sets `Sender`, `Recipient` and `Value` leaves the zero values elsewhere.
abbrev pub transaction2 : Bytes → List Bytes → List ℤ → Transaction2
transaction2 sender recipient value = record {
  sender = sender;
  recipient = recipient;
  tx_hash = [];
  id = 0;
  success = false;
  is_relay = false;
  sen_lock = false;
  rec_lock = false;
  value = value;
  request_time = pos 0;
  second_request_time = pos 0;
  commit_time = pos 0;
  lock_time = pos 0;
  unlock_time = pos 0;
  lock_time2 = pos 0;
  unlock_time2 = pos 0;
  half_lock = false;
  rec_suppose_on_chain = 0;
  sen_suppose_on_chain = 0;
  relay_lock = false;
}

-- `tx.Value[i]` panics where there are fewer values than recipients.
split_at : Bytes → List Bytes → List ℤ → Option (List Transaction2)
split_at sender [] values = some []
split_at sender (r ∷ recipients) [] = none
split_at sender (r ∷ recipients) (v ∷ values) = do
  txs ← split_at sender recipients values
  some (transaction2 sender (r ∷ []) (v ∷ []) ∷ txs)

unfoldable pub mtx2totx1 : Transaction2 → Option (List Transaction2)
unfolding split_at
mtx2totx1 tx = split_at tx.sender tx.recipient tx.value
