-- ===== src/Trie/State.antt =====
-- trie/trie.go: the methods of `Trie`. The root is `none` where the source has a nil pointer, and the
-- result `none` is a panic.
use block_preempt.Prelude.{ℕ, ◌+◌, Option, none, some, List, [], ◌∷◌, ◌>>=◌}
use block_preempt.Trie.Nibbles.{Bytes, from_bytes}
use block_preempt.Trie.Node.{Value, Node, new_leaf_node_from_nibbles}
use block_preempt.Trie.Walk.{Reply, missing, get_node, put_node}

pub record Trie : Type 0 where
  pub root : Option Node

abbrev pub new_trie : Trie
new_trie = record { root = none }

abbrev pub get_root : Option Node → Bytes → Option Reply
get_root none nibbles = missing
get_root (some node) nibbles = get_node node nibbles

unfoldable pub get : Trie → Bytes → Option Reply
get t key = get_root t.root (from_bytes key)

abbrev pub put_root : Option Node → Bytes → Value → Option Node
put_root none nibbles value = some (new_leaf_node_from_nibbles nibbles value)
put_root (some node) nibbles value = put_node node nibbles value

unfoldable pub put : Trie → Bytes → Value → Option Trie
put t key value =
    put_root t.root (from_bytes key) value >>= λ node. some (record { root = some node })

put_data : (ℕ → Bytes) → ℕ → Trie → List Bytes → Option Trie
put_data itoa id t [] = some t
put_data itoa id t (datum_bytes ∷ rest) = do
  t' ← put t datum_bytes (some (itoa id))
  put_data itoa (id + 1) t' rest

-- The loop over `data`, with the position of the datum; `strconv.Itoa` is a parameter.
unfoldable pub new_trie_with_data : (ℕ → Bytes) → List Bytes → Option Trie
unfolding put_data
new_trie_with_data itoa data_bytes = put_data itoa 0 new_trie data_bytes
