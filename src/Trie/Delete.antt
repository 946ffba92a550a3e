-- ===== src/Trie/Delete.antt =====
-- trie/trie_node.go, `Node.Delete`, and `Trie.Delete` of trie/trie.go. The outer option is a panic, the
-- inner one a nil pointer. The source's "delete error" is after the cases of all three kinds of node,
-- each of which returns. A slice that `append` extends in place is a new list here.
pub mod Slots
pub mod Undo
use block_preempt.Prelude.{
  ℕ, zero, suc, ◌+◌, ◌-◌, ◌≡◌, refl, Bool, true, false, Option, none, some, arith, [], ◌∷◌, ◌++◌,
  length, drop, get_elem?, set, map, ltb, ◌==◌, if◌then◌else◌, ◌>>=◌,
}
use block_preempt.Trie.Nibbles.{Bytes, from_bytes, prefix_matched_len}
use block_preempt.Trie.Node.{
  Value, Index, Node, leaf, branch, extension, Nodes, nil, cons, length_nodes, get_node?,
  erase_node,
}
use block_preempt.Trie.Walk.{Reply, missing, get_node}
use block_preempt.Trie.State.{Trie, get}

-- The first nibble whose slot is not -1.
abbrev pub first_nibble : Index → Option ℕ
first_nibble [] = none
first_nibble (some i ∷ index) = some 0
first_nibble (none ∷ index) = first_nibble index >>= λ k. some (k + 1)

-- A branch with one child and no value becomes the child, with the nibble in front.
abbrev pub collapse : ℕ → Node → Node
collapse nibble (leaf key_slice value) = leaf (nibble ∷ key_slice) value
collapse nibble (extension key_slice next) = extension (nibble ∷ key_slice) next
collapse nibble (branch value index branches) =
    extension (nibble ∷ []) (branch value index branches)

abbrev pub collapse_first : Index → Nodes → Option (Option Node)
collapse_first index branches = do
  nibble ← first_nibble index
  child ← get_node? branches 0
  some (some (collapse nibble child))

-- An extension above what became of its child.
abbrev pub join : Bytes → Option Node → Option (Option Node)
join key_slice none = none
join key_slice (some (leaf k value)) = some (some (leaf (key_slice ++ k) value))
join key_slice (some (extension k next)) = some (some (extension (key_slice ++ k) next))
join key_slice (some (branch value index branches)) =
    some (some (extension key_slice (branch value index branches)))

abbrev pub lower : ℕ → Option ℕ → Option ℕ
lower i none = none
lower i (some k) = if ltb i k then some (k - 1) else some k

-- The leaf in slot `nibble`, which is at position `i`, is taken out.
unfoldable pub delete_leaf_child : Value → Index → Nodes → ℕ → ℕ → Option (Option Node)
delete_leaf_child value index branches nibble i =
    let branches' = erase_node i branches in
    let index' = set (map (lower i) index) nibble none in
    let kept : Option (Option Node) = some (some (branch value index' branches')) in
    if length_nodes branches' == 1
    then elim value [ some v ↦ kept | none ↦ collapse_first index' branches' ]
    else kept

abbrev pub is_leaf : Node → Bool
is_leaf (leaf key_slice value) = true
is_leaf _ = false

-- `key[length:]`, which panics where the key is shorter.
abbrev pub behind : ℕ → Bytes → Option Bytes
behind n key = if ltb (length key) n then none else some (drop n key)

unfoldable mutual
  unfolding delete_leaf_child

  pub delete_node : Node → Bytes → Option (Option Node)
  delete_node (leaf key_slice value) key = some none
  delete_node (extension key_slice next) key =
      let below = delete_node next (drop (length key_slice) key) in
      behind (length key_slice) key >>= λ rest. below >>= λ n. join key_slice n
  delete_node (branch value index branches) [] =
      if length_nodes branches == 1
      then collapse_first index branches
      else some (some (branch none index branches))
  delete_node (branch value index branches) (nibble ∷ rest) =
      if length_nodes branches == 1
      then some (some (leaf [] value))
      else (get_elem? index nibble >>= λ slot. slot >>= λ i. get_node? branches i >>= λ child.
          let below = delete_child branches i rest in
          if is_leaf child
          then delete_leaf_child value index branches nibble i
          else (below >>= λ bs. some (some (branch value index bs))))

  -- The child at position `i`, which is no leaf.
  pub delete_child : Nodes → ℕ → Bytes → Option Nodes
  delete_child nil i rest = none
  delete_child (cons node nodes) zero rest =
      delete_node node rest >>= λ n. n >>= λ m. some (cons m nodes)
  delete_child (cons node nodes) (suc i) rest =
      delete_child nodes i rest >>= λ ns. some (cons node ns)

-- Whether the source returns no error, and the trie.
abbrev pub delete_found : Trie → Bytes → Reply → Option Node → Option (Bool × Trie)
delete_found t key (value, false) root = some (false, t)
delete_found t key (value, true) none = none
delete_found t key (value, true) (some node) =
    delete_node node (from_bytes key) >>= λ root. some (true, record { root = root })

unfoldable pub delete : Trie → Bytes → Option (Bool × Trie)
delete t key = get t key >>= λ reply. delete_found t key reply t.root

-- A branch with one child: deleting any key
-- that goes on below the branch returns, and afterwards no key goes on there: every such key is missing.
pub delete_node_drops :
    (value : Value) (index : Index) (child : Node) (b : ℕ) (key : Bytes)
    → (n : Node) × (delete_node (branch value index (cons child nil)) (b ∷ key) ≡ some (some n))
      × ((c : ℕ) (other : Bytes) → get_node n (c ∷ other) ≡ missing)
unfolding delete_node get_node prefix_matched_len
delete_node_drops value index child b key = (leaf [] value, refl, λ c other. ground arith)
