-- ===== src/Migrate/Aggregate.antt =====
-- pbft/pbft.go: `TrySendChangesAndPendings` up to the message: the transactions that an account takes
-- along are joined into the first of them, and with `Enable_bank` the bank becomes its sender. The
-- transactions are shared objects, so that the joining writes to `store`.
mod Steps
pub mod Payments
use block_preempt.Prelude.{
  ℕ, zero, suc, Option, none, some, List, [], ◌∷◌, ◌++◌, length, take, leb, get_elem?, ◌==◌,
  if◌then◌else◌, ◌>>=◌,
}
use block_preempt.Params.{ChainConfig}
use block_preempt.Account.Hex.{Str}
use block_preempt.Account.Credit.{bank_account_addr}
use block_preempt.Core.Transaction.{Transaction2}
use block_preempt.Core.TxPool.{Ref}
use block_preempt.Migrate.{Pendings}

abbrev pub Store : Type 0
Store = Ref → Transaction2

abbrev pub assign_ref : Store → Ref → Transaction2 → Store
assign_ref store r tx q = if r == q then tx else store q

-- One recipient and its value, from index `j` of the transaction `v`, are appended to `first`;
-- `tx.Value[j]` panics where there are fewer values than recipients.
abbrev pub append_payment : Ref → Ref → ℕ → Store → Option Store
append_payment first v j store = get_elem? (store v).recipient j >>= λ r.
    get_elem? (store v).value j >>= λ x.
    (let tx = store first in
      some (
        assign_ref store first
          (record tx { recipient = tx.recipient ++ r ∷ []; value = tx.value ++ x ∷ [] })))

-- `k` recipients are left, from index `j` on.
unfoldable pub join_recipients : Ref → Ref → ℕ → ℕ → Store → Option Store
join_recipients first v zero j store = some store
join_recipients first v (suc k) j store =
    append_payment first v j store >>= λ store'. join_recipients first v k (suc j) store'

unfoldable pub join_txs : Ref → List Ref → Store → Option Store
unfolding join_recipients
join_txs first [] store = some store
join_txs first (v ∷ rest) store =
    join_recipients first v (length (store v).recipient) 0 store >>= λ store'.
    join_txs first rest store'

-- The transactions of one account; fewer than two are left alone.
unfoldable pub join_pending : List Ref → Store → Option (List Ref × Store)
unfolding join_txs
join_pending [] store = some ([], store)
join_pending (v ∷ []) store = some (v ∷ [], store)
join_pending (v ∷ w ∷ rest) store = join_txs v (w ∷ rest) store >>= λ store'. some (v ∷ [], store')

unfoldable pub join_pendings : Pendings → Store → Option (Pendings × Store)
unfolding join_pending
join_pendings [] store = some ([], store)
join_pendings ((addr, txs) ∷ rest) store =
    join_pending txs store >>= λ a. join_pendings rest a.1 >>= λ b. some ((addr, a.0) ∷ b.0, b.1)

-- The log line names the values of the first three recipients, and panics where one has none.
abbrev pub bank_sends : List Ref → Store → Option Store
bank_sends [] store = some store
bank_sends (v ∷ rest) store =
    let tx = store v in
    if leb (length (take 3 tx.recipient)) (length tx.value)
    then some (assign_ref store v (record tx { sender = bank_account_addr }))
    else none

unfoldable pub bank_pendings : Pendings → Store → Option Store
bank_pendings [] store = some store
bank_pendings ((addr, txs) ∷ rest) store =
    bank_sends txs store >>= λ store'. bank_pendings rest store'

-- What is sent to the target shard, and the objects behind it.
unfoldable pub try_send_changes_and_pendings :
    ChainConfig → Pendings → Store → Option (Pendings × Store)
unfolding join_pendings bank_pendings
try_send_changes_and_pendings c caps store = join_pendings caps store >>= λ a.
    (if c.enable_bank then bank_pendings a.0 a.1 else some a.1) >>= λ store'. some (a.0, store')
