-- ===== src/Pbft/Wire.antt =====
-- pbft/cmd.go: the frame of a message, which is a command in twelve bytes and the content behind it,
-- and `handleRequest` of pbft/pbft.go, which picks a handler by the command. The encodings of the
-- contents are those of encoding/json.
pub mod RoundTrip
use block_preempt.Prelude.{
  ℕ, suc, Bool, Option, none, some, List, [], ◌∷◌, ◌++◌, length, take, drop, set, replicate, ltb,
  ◌==◌, if◌then◌else◌, ◌>>=◌,
}
use block_preempt.Trie.Nibbles.{Bytes}
use block_preempt.Account.Hex.{Str, str_eq}

abbrev pub prefix_cmd_length : ℕ
prefix_cmd_length = 12

-- The constants of type `command`, without their leading `c`.
pub data Command : Type 0 where
  pre_prepare prepare commit request_block send_block reply client relay txmig1 announce cap stop
        ll_block llt new_map epoch_ch migrate_wanted pending_txs num_of_migrated_txs_addrs
        unchanged_state balance_and_pending sure bank_agg_tx :
      Command

-- Their texts, in bytes.
unfoldable pub text : Command → Str
text pre_prepare = 112 ∷ 114 ∷ 101 ∷ 112 ∷ 114 ∷ 101 ∷ 112 ∷ 97 ∷ 114 ∷ 101 ∷ []
text prepare = 112 ∷ 114 ∷ 101 ∷ 112 ∷ 97 ∷ 114 ∷ 101 ∷ []
text commit = 99 ∷ 111 ∷ 109 ∷ 109 ∷ 105 ∷ 116 ∷ []
text request_block = 114 ∷ 101 ∷ 113 ∷ 117 ∷ 101 ∷ 115 ∷ 116 ∷ 66 ∷ 108 ∷ 111 ∷ 99 ∷ 107 ∷ []
text send_block = 115 ∷ 101 ∷ 110 ∷ 100 ∷ 66 ∷ 108 ∷ 111 ∷ 99 ∷ 107 ∷ []
text reply = 114 ∷ 101 ∷ 112 ∷ 108 ∷ 121 ∷ []
text client = 99 ∷ 108 ∷ 105 ∷ 101 ∷ 110 ∷ 116 ∷ []
text relay = 114 ∷ 101 ∷ 108 ∷ 97 ∷ 121 ∷ []
text txmig1 = 116 ∷ 120 ∷ 109 ∷ 105 ∷ 103 ∷ 49 ∷ []
text announce = 97 ∷ 110 ∷ 110 ∷ 111 ∷ 117 ∷ 110 ∷ 99 ∷ 101 ∷ []
text cap = 99 ∷ 115 ∷ 65 ∷ 112 ∷ 115 ∷ []
text stop = 115 ∷ 116 ∷ 111 ∷ 112 ∷ []
text ll_block = 76 ∷ 76 ∷ 98 ∷ 108 ∷ 111 ∷ 99 ∷ 107 ∷ []
text llt = 76 ∷ 76 ∷ 84 ∷ []
text new_map = 110 ∷ 101 ∷ 119 ∷ 77 ∷ 97 ∷ 112 ∷ []
text epoch_ch = 101 ∷ 112 ∷ 111 ∷ 99 ∷ 104 ∷ 99 ∷ 104 ∷ 97 ∷ 110 ∷ 103 ∷ 101 ∷ []
text migrate_wanted = 109 ∷ 105 ∷ 103 ∷ 119 ∷ 97 ∷ 110 ∷ 116 ∷ 101 ∷ 100 ∷ []
text pending_txs = 112 ∷ 101 ∷ 110 ∷ 100 ∷ 105 ∷ 110 ∷ 103 ∷ 84 ∷ 88 ∷ 115 ∷ []
text num_of_migrated_txs_addrs = 109 ∷ 105 ∷ 103 ∷ 84 ∷ 88 ∷ 115 ∷ 65 ∷ 100 ∷ 100 ∷ 114 ∷ 35 ∷ []
text unchanged_state = 35 ∷ 111 ∷ 102 ∷ 85 ∷ 110 ∷ 99 ∷ 104 ∷ 97 ∷ 110 ∷ 103 ∷ 101 ∷ []
text balance_and_pending = 98 ∷ 97 ∷ 108 ∷ 97 ∷ 110 ∷ 99 ∷ 101 ∷ 38 ∷ 84 ∷ 88 ∷ []
text sure = 115 ∷ 117 ∷ 114 ∷ 101 ∷ []
text bank_agg_tx = 98 ∷ 97 ∷ 110 ∷ 107 ∷ 65 ∷ 103 ∷ 103 ∷ 84 ∷ 88 ∷ []

-- The loop that copies the command, from index `i` on: a write past the end panics.
unfoldable pub write_cmd : Bytes → ℕ → Str → Option Bytes
write_cmd b i [] = some b
write_cmd b i (v ∷ vs) =
    let rest = write_cmd (set b i v) (suc i) vs in if ltb i (length b) then rest else none

unfoldable pub joint_message : Str → Bytes → Option Bytes
unfolding write_cmd
joint_message cmd content =
    write_cmd (replicate prefix_cmd_length 0) 0 cmd >>= λ b. some (b ++ content)

unfoldable pub drop_zeros : Bytes → Str
drop_zeros [] = []
drop_zeros (v ∷ vs) = let rest = drop_zeros vs in if v == 0 then rest else v ∷ rest

-- The slice of the first twelve bytes panics on a shorter message.
unfoldable pub split_message : Bytes → Option (Str × Bytes)
unfolding drop_zeros
split_message message =
    if ltb (length message) prefix_cmd_length
    then none
    else some (drop_zeros (take prefix_cmd_length message), drop prefix_cmd_length message)

-- The cases of the `switch` in `handleRequest`.
unfoldable pub cases : List Command
cases =
    pre_prepare ∷ prepare ∷ commit ∷ request_block ∷ send_block ∷ client ∷ relay ∷ new_map ∷ txmig1
    ∷ announce ∷ migrate_wanted ∷ cap ∷ epoch_ch ∷ balance_and_pending ∷ bank_agg_tx ∷ sure ∷ stop
    ∷ llt ∷ []

unfoldable pub find_case : List Command → Str → Option Command
unfolding text
find_case [] cmd = none
find_case (c ∷ cs) cmd = let rest = find_case cs cmd in if str_eq (text c) cmd then some c else rest

-- The handler that `handleRequest` calls, by its command, and the content it gets; without a case,
-- the message is dropped.
unfoldable pub handle_request : Bytes → Option (Option Command × Bytes)
unfolding split_message find_case cases
handle_request message =
    split_message message >>= λ m. let (cmd, content) = m in some (find_case cases cmd, content)
