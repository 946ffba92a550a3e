-- ===== src/Pbft/Examples.antt =====
-- A follower and the leader of a shard of four nodes, on a chain that is the list of its blocks.
use block_preempt.Prelude.{
  ◌*◌, ◌<◌, ◌≡◌, refl, ◌≢◌, true, false, none, some, List, [], ◌∷◌, ◌++◌, ◌>>=◌, arith,
}
use block_preempt.Trie.Nibbles.{Bytes}
use block_preempt.Account.Hex.{str_eq-false, Str, hex}
use block_preempt.Pbft.Wire.{joint_message, split_message}
use block_preempt.Pbft.Wire.RoundTrip.{split_message-joint_message}
use block_preempt.Pbft.Distinct.{distinct}
use block_preempt.Pbft.Node.{
  block, Request, RequestBlocks, pre_prepare, prepare, commit, send_block, Outcome, done, ◌▸◌,
  Ledger, Codec, Pbft, malicious_num, leader,
}
use block_preempt.Pbft.Handlers.{
  new_pbft, handle_pre_prepare, handle_commit, handle_request_block, handle_send_block,
}
use block_preempt.Pbft.Handlers.CatchUp.{reply_to, add_each, handle_send_block-handle_request_block}
use block_preempt.Pbft.Steps.{Event, Reach, start, later, receives, step}
use block_preempt.Pbft.Steps.Quorum.{commit_senders, Reach-replied}
use block_preempt.Pbft.Steps.Commits

abbrev list_chain : Ledger
list_chain = record {
  Block = Bytes;
  State = List Bytes;
  decode_block = λ b. some b;
  add_block = λ b s. some (s ++ (b ∷ []));
  after_block = λ b n s. some s;
  generate_block = λ n s. some (n ∷ [], s);
  commit_epoch = λ l b s. some (none, s);
  commit_states = λ l b s. some s;
}

abbrev plain : Codec
plain = record { marshal = λ r. r.content; sha256 = λ b. b }

abbrev n1 : Str
n1 = 78 ∷ 49 ∷ []

abbrev n2 : Str
n2 = 78 ∷ 50 ∷ []

abbrev n3 : Str
n3 = 78 ∷ 51 ∷ []

abbrev request : Request
request = record { content = 7 ∷ []; id = 5; timestamp = 9 }

abbrev digest : Str
digest = 48 ∷ 55 ∷ []

abbrev follower : Pbft Bytes (List Bytes)
follower = record {
  node_id = n1;
  cur_chain = [];
  sequence_id = 1;
  msequence_id = 0;
  ssequence_id = 0;
  message_pool = (digest, request) ∷ [];
  mmessage_pool = [];
  smessage_pool = [];
  pre_pare_confirm_count = [];
  commit_confirm_count = [];
  is_commit_bordcast = [];
  is_reply = [];
  height2digest = λ h. some digest;
  node_table = leader ∷ n1 ∷ n2 ∷ n3 ∷ [];
  sequence_lock = false;
  epoch_lock = false;
  request_lock = true;
  sent = [];
}

split_message-joint_message_example :
    (joint_message (99 ∷ 111 ∷ []) (0 ∷ 1 ∷ []) >>= split_message)
    ≡ some (99 ∷ 111 ∷ [], 0 ∷ 1 ∷ [])
split_message-joint_message_example =
    split_message-joint_message (99 ∷ 111 ∷ []) (0 ∷ 1 ∷ []) (omega arith)
      (omega arith, (omega arith, tt))

apart : (n2 ≢ n1) × ((n2 ≢ leader) × (n2 ≢ n3))
apart = (str_eq-false n2 n1 refl, (str_eq-false n2 leader refl, str_eq-false n2 n3 refl))

abbrev blocks_request : RequestBlocks
blocks_request = record { start_id = 4; end_id = 5; server_id = leader; node_id = n1 }

handle_send_block-handle_request_block_example :
    (handle_request_block list_chain plain false blocks_request follower
      ≡ done (record follower {
        sent =
            (
              n1,
              send_block
                  (reply_to list_chain plain false blocks_request ((7 ∷ []) ∷ (7 ∷ []) ∷ [])),
            )
            ∷ follower.sent;
      }))
    × (handle_send_block list_chain plain false
          (reply_to list_chain plain false blocks_request ((7 ∷ []) ∷ (7 ∷ []) ∷ []))
          follower
        ≡ (add_each list_chain plain false ((7 ∷ []) ∷ (7 ∷ []) ∷ []) [] ▸ λ s.
            done (record follower { cur_chain = s; sequence_id = 6; request_lock = false })))
handle_send_block-handle_request_block_example =
    handle_send_block-handle_request_block list_chain plain false blocks_request follower follower
      (λ h. 7 ∷ []) (λ h lo hi. (digest, request, refl, refl, refl)) refl

abbrev table : List Str
table = leader ∷ n1 ∷ n2 ∷ n3 ∷ []

abbrev result :
    Pbft Bytes (List Bytes) → Outcome (Pbft Bytes (List Bytes)) → Pbft Bytes (List Bytes)
result p (done q) = q
result p _ = p

abbrev proposal : Event Bytes
proposal = receives (
    pre_prepare
      (record { request_message = request; digest = digest; sequence_id = 1; kind = block }))

abbrev prepare_of : Str → Event Bytes
prepare_of i =
    receives (prepare (record { digest = digest; sequence_id = 1; node_id = i; kind = block }))

unfoldable next : Event Bytes → Pbft Bytes (List Bytes) → Pbft Bytes (List Bytes)
next e p = result p (step list_chain plain false e p)

abbrev commit_of : Str → Event Bytes
commit_of i =
    receives (commit (record { digest = digest; sequence_id = 1; node_id = i; kind = block }))

committed :
    Reach list_chain plain false n1 table 0 []
      (commit_of n3 ∷ commit_of n2 ∷ commit_of leader ∷ proposal ∷ [])
      (next
        (commit_of n3)
        (next (commit_of n2) (next (commit_of leader) (next proposal (new_pbft n1 table 0 [])))))
unfolding next step new_pbft hex handle_pre_prepare handle_commit
committed =
    later (commit_of n3)
      (later (commit_of n2) (later (commit_of leader) (later proposal start refl) refl) refl) refl

Reach-replied_example :
    2 * malicious_num
    < distinct
        (commit_senders digest (commit_of n3 ∷ commit_of n2 ∷ commit_of leader ∷ proposal ∷ []))
unfolding next step new_pbft hex handle_pre_prepare handle_commit
Reach-replied_example = Reach-replied list_chain plain false committed digest refl
