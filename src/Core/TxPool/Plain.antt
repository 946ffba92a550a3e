-- ===== src/Core/TxPool/Plain.antt =====
-- Transactions that are no relay, and the tests of the two loops over the queue.
use block_preempt.Prelude.{ℕ, ◌≡◌, Bool, true, false, ◌&&◌, ◌==◌, arith}
use block_preempt.Trie.Nibbles.{Bytes}
use block_preempt.Core.Transaction.{Transaction2}

-- A transaction from `sender` that is not marked as relayed.
abbrev pub IsPlain : Bytes → Transaction2 → Type 0
IsPlain sender tx = (tx.sender ≡ sender) × (tx.is_relay ≡ false) × (tx.relay_lock ≡ false)

pub ==_refl : (a : ℕ) → (a == a) ≡ true
==_refl a = ground arith

pub and_false : (b : Bool) → (b && false) ≡ false
and_false b = ground arith
