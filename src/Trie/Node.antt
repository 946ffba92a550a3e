-- ===== src/Trie/Node.antt =====
-- trie/trie_node.go, trie_leaf.go, trie_extension.go, trie_empty.go: the nodes of the trie. `Node` of
-- the source has the fields of all three flags; a constructor here holds those that its flag uses.
-- A `[]byte` value is an option, since `nil` is told apart from an empty slice; -1 in `Index` is
-- `none`. Slices are values: memory that two slices share is not modelled.
use block_preempt.Prelude.{ℕ, zero, suc, Option, none, some, List, Bool, true, false}
use block_preempt.Trie.Nibbles.{Bytes, from_bytes, from_nibble_bytes}
use block_preempt.Prelude.{◌>>=◌}

abbrev pub Value : Type 0
Value = Option Bytes

-- `Index [16]int`: the position in `Branches` of the child for each nibble.
abbrev pub Index : Type 0
Index = List (Option ℕ)

mutual
  pub data Node : Type 0 where
    leaf : (key_slice : Bytes) (value : Value) → Node
    branch : (value : Value) (index : Index) (branches : Nodes) → Node
    extension : (key_slice : Bytes) (next : Node) → Node

  pub data Nodes : Type 0 where
    nil : Nodes
    cons : Node → Nodes → Nodes

unfoldable pub is_empty_node : Option Node → Bool
is_empty_node none = true
is_empty_node (some node) = false

abbrev pub new_leaf_node_from_nibbles : Bytes → Value → Node
new_leaf_node_from_nibbles nibbles value = leaf nibbles value

unfoldable pub new_leaf_node_from_nibble_bytes : Bytes → Value → Option Node
new_leaf_node_from_nibble_bytes nibbles value = do
  ns ← from_nibble_bytes nibbles
  some (new_leaf_node_from_nibbles ns value)

unfoldable pub new_leaf_node_from_bytes : Bytes → Value → Node
new_leaf_node_from_bytes key value = new_leaf_node_from_nibbles (from_bytes key) value

abbrev pub new_extension_node : Bytes → Node → Node
new_extension_node nibbles next = extension nibbles next

-- The operations of `Branches []*Node`.
abbrev pub length_nodes : Nodes → ℕ
length_nodes nil = 0
length_nodes (cons n ns) = suc (length_nodes ns)

abbrev pub get_node? : Nodes → ℕ → Option Node
get_node? nil i = none
get_node? (cons n ns) zero = some n
get_node? (cons n ns) (suc i) = get_node? ns i

abbrev pub set_node : Nodes → ℕ → Node → Nodes
set_node nil i m = nil
set_node (cons n ns) zero m = cons m ns
set_node (cons n ns) (suc i) m = cons n (set_node ns i m)

abbrev pub append_node : Nodes → Node → Nodes
append_node nil m = cons m nil
append_node (cons n ns) m = cons n (append_node ns m)

-- `append(append(ns[:i], m), ns[i:]...)`
abbrev pub insert_node : ℕ → Node → Nodes → Nodes
insert_node zero m ns = cons m ns
insert_node (suc i) m nil = cons m nil
insert_node (suc i) m (cons n ns) = cons n (insert_node i m ns)

-- `append(ns[:i], ns[i+1:]...)`
abbrev pub erase_node : ℕ → Nodes → Nodes
erase_node i nil = nil
erase_node zero (cons n ns) = ns
erase_node (suc i) (cons n ns) = cons n (erase_node i ns)
