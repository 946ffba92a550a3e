-- ===== src/Pbft/Node.antt =====
-- The state of a node (`Pbft` of pbft/pbft.go) and the messages of pbft/cmd.go. The chain that the
-- consensus drives is the interface `Ledger`.
use block_preempt.Prelude.{
  ℕ, ◌≡◌, refl, ◌≢◌, Bool, false, not, ◌&&◌, Option, none, some, List, [], ◌∷◌, ◌++◌, ◌==◌,
  if◌then◌else◌,
}
use block_preempt.Trie.Nibbles.{Bytes}
use block_preempt.Account.Hex.{Str, str_eq, hex}
use block_preempt.Account.Table.{lookup, insert, lookup-insert_self, lookup-insert_ne}

-- The field `Type` of a message: the three texts that the source writes, and any other text, which
-- its `else` branches take as "AccState" but for the test of the sequence number.
pub data Kind : Type 0 where
  block epoch_change acc_state unknown : Kind

pub record Request : Type 0 where
  pub content : Bytes
  pub id : ℕ
  pub timestamp : ℕ

pub record PrePrepare : Type 0 where
  pub request_message : Request
  pub digest : Str
  pub sequence_id : ℕ
  pub kind : Kind

-- `Prepare` and `Commit` have the same fields.
pub record Vote : Type 0 where
  pub digest : Str
  pub sequence_id : ℕ
  pub node_id : Str
  pub kind : Kind

pub record RequestBlocks : Type 0 where
  pub start_id : ℕ
  pub end_id : ℕ
  pub server_id : Str
  pub node_id : Str

pub record SendBlocks (Block : Type 0) : Type 0 where
  pub start_id : ℕ
  pub end_id : ℕ
  pub blocks : List Block
  pub node_id : Str

pub data Message (Block : Type 0) : Type 0 where
  pre_prepare : PrePrepare → Message Block
  prepare commit : Vote → Message Block
  request_block : RequestBlocks → Message Block
  send_block : SendBlocks Block → Message Block

-- What ends a handler: its result, a wait for a mutex that another holder has, or a panic.
pub data Outcome (A : Type 0) : Type 0 where
  done : A → Outcome A
  waits dies : Outcome A

infixl 5 ◌▸◌
abbrev pub ◌▸◌ : {A B : Type 0} → Outcome A → (A → Outcome B) → Outcome B
done a ▸ f = f a
waits ▸ f = waits
dies ▸ f = dies

-- A result, or a panic.
abbrev pub or_die : {A : Type 0} → Option A → Outcome A
or_die none = dies
or_die (some a) = done a

-- What the consensus asks of the chain and the tables behind it; `none` is a panic. `commit_epoch`
-- also gives the content of the proposal of states that follows at once, if any.
pub record Ledger : Type 1 where
  pub Block : Type 0
  pub State : Type 0
  pub decode_block : Bytes → Option Block
  pub add_block : Block → State → Option State
  -- The leader's work on a block that was added, from its sequence number on.
  pub after_block : Block → ℕ → State → Option State
  pub generate_block : ℕ → State → Option (Bytes × State)
  pub commit_epoch : Bool → Bytes → State → Option (Option Bytes × State)
  pub commit_states : Bool → Bytes → State → Option State

-- `sent` holds what was handed to the network, the latest first. A mutex is `true` while it is held.
pub record Pbft (Block State : Type 0) : Type 0 where
  pub node_id : Str
  pub cur_chain : State
  pub sequence_id : ℕ
  pub msequence_id : ℕ
  pub ssequence_id : ℕ
  pub message_pool : List (Str × Request)
  pub mmessage_pool : List (Str × Request)
  pub smessage_pool : List (Str × Request)
  pub pre_pare_confirm_count : List (Str × List (Str × Bool))
  pub commit_confirm_count : List (Str × List (Str × Bool))
  pub is_commit_bordcast : List (Str × Bool)
  pub is_reply : List (Str × Bool)
  pub height2digest : ℕ → Option Str
  pub node_table : List Str
  pub sequence_lock : Bool
  pub epoch_lock : Bool
  pub request_lock : Bool
  pub sent : List (Str × Message Block)

-- encoding/json of a request, and crypto/sha256.
pub record Codec : Type 0 where
  pub marshal : Request → Bytes
  pub sha256 : Bytes → Bytes

abbrev pub get_digest : Codec → Request → Str
get_digest k r = hex (k.sha256 (k.marshal r))

-- The zero value that a read of a missing key gives.
abbrev pub is_set : List (Str × Bool) → Str → Bool
is_set t k = elim (lookup t k) [ none ↦ false | some b ↦ b ]

abbrev pub votes : List (Str × List (Str × Bool)) → Str → List (Str × Bool)
votes t k = elim (lookup t k) [ none ↦ [] | some v ↦ v ]

pub is_set-insert_self : (t : List (Str × Bool)) (k : Str) (b : Bool) → is_set (insert t k b) k ≡ b
is_set-insert_self t k b = rw (lookup-insert_self t k b, is_set) refl

pub is_set-insert_ne :
    (t : List (Str × Bool)) (k j : Str) (b : Bool) → k ≢ j → is_set (insert t k b) j ≡ is_set t j
is_set-insert_ne t k j b ne = rw (lookup-insert_ne t k j b ne, is_set) refl

pub votes-insert_self :
    (t : List (Str × List (Str × Bool))) (k : Str) (v : List (Str × Bool))
    → votes (insert t k v) k ≡ v
votes-insert_self t k v = rw (lookup-insert_self t k v, votes) refl

pub votes-insert_ne :
    (t : List (Str × List (Str × Bool))) (k j : Str) (v : List (Str × Bool))
    → k ≢ j
    → votes (insert t k v) j ≡ votes t j
votes-insert_ne t k j v ne = rw (lookup-insert_ne t k j v ne, votes) refl

-- `malicious_num` of pbft/config.go.
abbrev pub malicious_num : ℕ
malicious_num = 1

-- The text "N0" of the leader.
abbrev pub leader : Str
leader = 78 ∷ 48 ∷ []

abbrev pub to_all : {B : Type 0} → Str → Message B → List Str → List (Str × Message B)
to_all me m [] = []
to_all me m (i ∷ is) = let rest = to_all me m is in if str_eq i me then rest else (i, m) ∷ rest

module _ {B S : Type 0} where
  abbrev pub is_leader : Pbft B S → Bool
  is_leader p = str_eq p.node_id leader

  abbrev pub pool_of : Kind → Pbft B S → List (Str × Request)
  pool_of block p = p.message_pool
  pool_of epoch_change p = p.mmessage_pool
  pool_of _ p = p.smessage_pool

  abbrev pub store : Kind → Str → Request → Pbft B S → Pbft B S
  store block d r p = record p { message_pool = insert p.message_pool d r }
  store epoch_change d r p = record p { mmessage_pool = insert p.mmessage_pool d r }
  store _ d r p = record p { smessage_pool = insert p.smessage_pool d r }

  -- The test of the sequence number, the first argument being `Stop_When_Migrating`.
  abbrev pub wrong_sequence : Bool → Kind → ℕ → Pbft B S → Bool
  wrong_sequence stop block n p = not (p.sequence_id == n)
  wrong_sequence stop epoch_change n p = stop && not (p.msequence_id == n)
  wrong_sequence stop acc_state n p = stop && not (p.ssequence_id == n)
  wrong_sequence stop unknown n p = false

  -- To every node of the table but itself.
  unfoldable pub broadcast : Message B → Pbft B S → Pbft B S
  broadcast m p = record p { sent = to_all p.node_id m p.node_table ++ p.sent }

  unfoldable pub set_pre_pare_confirm_map : Str → Str → Bool → Pbft B S → Pbft B S
  set_pre_pare_confirm_map val val2 b p = record p {
    pre_pare_confirm_count =
        insert p.pre_pare_confirm_count val (insert (votes p.pre_pare_confirm_count val) val2 b);
  }

  unfoldable pub set_commit_confirm_map : Str → Str → Bool → Pbft B S → Pbft B S
  set_commit_confirm_map val val2 b p = record p {
    commit_confirm_count =
        insert p.commit_confirm_count val (insert (votes p.commit_confirm_count val) val2 b);
  }

  unfoldable pub request_blocks : ℕ → ℕ → Pbft B S → Pbft B S
  request_blocks start_id end_id p =
      let r : RequestBlocks = record {
        start_id = start_id;
        end_id = end_id;
        server_id = leader;
        node_id = p.node_id;
      } in
      record p { sent = (leader, request_block r) ∷ p.sent }
