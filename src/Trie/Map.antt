-- ===== src/Trie/Map.antt =====
-- The trie as a map from byte strings to values.
use block_preempt.Prelude.{◌≡◌, ◌∙◌, ◌≢◌, true, Option, none, some, some_inj, >>=-eq-some, subst}
use block_preempt.Trie.Nibbles.{Bytes, from_bytes}
use block_preempt.Trie.Nibbles.RoundTrip.{AllBelow, from_bytes-AllBelow, from_bytes_injective}
use block_preempt.Trie.Node.{Node}
use block_preempt.Trie.Valid.{IsNode}
use block_preempt.Trie.Walk.Reads.{get_leaf_self, get_leaf_ne}
use block_preempt.Trie.Walk.Puts.{get_node_leaf}
use block_preempt.Trie.Walk.PutNode.{put_node-Puts}
use block_preempt.Trie.State.{Trie, get, put, put_root}

abbrev IsRoot : Option Node → Type 0
IsRoot none = Unit
IsRoot (some n) = IsNode n

-- The nodes of the trie are well formed.
abbrev pub IsTrie : Trie → Type 0
IsTrie t = IsRoot t.root

abbrev pub IsBytes : Bytes → Type 0
IsBytes = AllBelow 256

-- What a write comes to, read through `Get`.
record PutResult (t t' : Trie) (key v : Bytes) : Type 0 where
  valid : IsTrie t'
  self : get t' key ≡ some (some v, true)
  other : (j : Bytes) → IsBytes j → j ≢ key → get t' j ≡ get t j

PutResult-root :
    (r : Option Node) (key v : Bytes) (n : Node)
    → IsRoot r
    → IsBytes key
    → put_root r (from_bytes key) (some v) ≡ some n
    → PutResult (record { root = r }) (record { root = some n }) key v
unfolding get
PutResult-root none key v n h hk e =
    subst (λ m. PutResult (record { root = none }) (record { root = some m }) key v) (some_inj e)
      (record {
        valid = (from_bytes-AllBelow key hk, tt);
        self =
            get_node_leaf (from_bytes key) (from_bytes key) (some v)
            ∙ get_leaf_self (from_bytes key) (some v);
        other = λ j hj ne.
            get_node_leaf (from_bytes key) (from_bytes j) (some v)
            ∙ get_leaf_ne (from_bytes key) (from_bytes j) (some v)
                (λ q. ne (from_bytes_injective j key hj hk q));
      })
PutResult-root (some m) key v n h hk e =
    let (valid, puts) = put_node-Puts m (from_bytes key) v n h (from_bytes-AllBelow key hk) e in
    record {
      valid = valid;
      self = puts.self;
      other = λ j hj ne.
          puts.other (from_bytes j) (from_bytes-AllBelow j hj)
            (λ q. ne (from_bytes_injective j key hj hk q));
    }

put_result :
    (t : Trie) (key v : Bytes) (t' : Trie)
    → IsTrie t
    → IsBytes key
    → put t key (some v) ≡ some t'
    → PutResult t t' key v
unfolding put
put_result t key v t' h hk e =
    let (n, e₁, e₂) =
      >>=-eq-some (put_root t.root (from_bytes key) (some v)) (λ m. some (record { root = some m }))
        e in
    subst (λ u. PutResult t u key v) (some_inj e₂) (PutResult-root t.root key v n h hk e₁)

module _ (t : Trie) (key v : Bytes) (t' : Trie) (h : IsTrie t) (hk : IsBytes key)
    (e : put t key (some v) ≡ some t') where
  -- For a well-formed trie and a key of bytes: where `Put` of a non-nil value returns, the trie stays
  -- well formed.
  pub put-IsTrie : IsTrie t'
  put-IsTrie = (put_result t key v t' h hk e).valid

  -- For a well-formed trie and a key of bytes: where `Put` of a non-nil value returns, `Get` finds that
  -- value under the key.
  pub get-put_self : get t' key ≡ some (some v, true)
  get-put_self = (put_result t key v t' h hk e).self

  -- For a well-formed trie and a key of bytes: where `Put` of a non-nil value returns, `Get` of every
  -- other key of bytes answers what it did before.
  pub get-put_ne : (j : Bytes) → IsBytes j → j ≢ key → get t' j ≡ get t j
  get-put_ne = (put_result t key v t' h hk e).other
