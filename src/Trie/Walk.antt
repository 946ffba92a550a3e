-- ===== src/Trie/Walk.antt =====
-- trie/trie.go, the loops of `Get` and `Put`. A round of the loop is a clause, and going on with a
-- child is the recursive call; `none` is a panic. `Put` writes through pointers: `*node = *ext`
-- replaces the node in its parent, which the recursion does by rebuilding the path.
pub mod Reads
pub mod Puts
pub mod PutLeaf
pub mod PutExtension
pub mod Exhausted
pub mod PutBranch
pub mod PutNode
use block_preempt.Prelude.{
  ℕ, zero, suc, ◌+◌, Bool, true, false, Option, none, some, [], ◌∷◌, get_elem?, set, take, drop,
  length, ◌==◌, ltb, ◌&&◌, if◌then◌else◌, ◌>>=◌,
}
use block_preempt.Trie.Nibbles.{Bytes, prefix_matched_len}
use block_preempt.Trie.Node.{
  Value, Node, leaf, branch, extension, Nodes, nil, cons, length_nodes, append_node,
  new_leaf_node_from_nibbles, new_extension_node,
}
use block_preempt.Trie.Branch.{new_branch_node, set_branch, set_value, is_some}

abbrev pub Reply : Type 0
Reply = Value × Bool

abbrev pub missing : Option Reply
missing = some (none, false)

abbrev pub get_leaf : Bytes → Value → Bytes → Option Reply
get_leaf key_slice value nibbles =
    let matched = prefix_matched_len key_slice nibbles in
    if (matched == length key_slice) && (matched == length nibbles)
    then some (value, true)
    else missing

unfoldable mutual
  pub get_node : Node → Bytes → Option Reply
  get_node (leaf key_slice value) nibbles = get_leaf key_slice value nibbles
  get_node (branch value index branches) [] = some (value, is_some value)
  get_node (branch value index branches) (b ∷ remaining) = get_elem? index b >>= λ slot. elim slot [
    | none ↦ missing
    | some i ↦ get_child branches i remaining
  ]
  get_node (extension key_slice next) nibbles =
      let matched = prefix_matched_len key_slice nibbles in
      let rest = get_node next (drop matched nibbles) in
      if ltb matched (length key_slice) then missing else rest

  pub get_child : Nodes → ℕ → Bytes → Option Reply
  get_child nil i nibbles = none
  get_child (cons node nodes) zero nibbles = get_node node nibbles
  get_child (cons node nodes) (suc i) nibbles = get_child nodes i nibbles

-- The new leaf for what is left of a key behind its nibble number `matched`, set in `branch`.
unfoldable pub set_leaf : ℕ → Bytes → Value → Node → Option Node
set_leaf matched nibbles value node =
    if ltb matched (length nibbles)
    then (do
      nibble ← get_elem? nibbles matched
      set_branch nibble (new_leaf_node_from_nibbles (drop (matched + 1) nibbles) value) node)
    else some node

-- The branch that takes the place of a leaf.
unfoldable pub put_leaf_branch : ℕ → Bytes → Value → Bytes → Value → Option Node
unfolding set_leaf
put_leaf_branch matched key_slice old nibbles value = do
  b1 ← (if matched == length key_slice then set_value old new_branch_node else some new_branch_node)
  b2 ← (if matched == length nibbles then set_value value b1 else some b1)
  b3 ← set_leaf matched key_slice old b2
  set_leaf matched nibbles value b3

unfoldable pub put_leaf : Bytes → Value → Bytes → Value → Option Node
put_leaf key_slice old nibbles value =
    let matched = prefix_matched_len key_slice nibbles in
    if (matched == length nibbles) && (matched == length key_slice)
    then some (new_leaf_node_from_nibbles key_slice value)
    else do
      node ← put_leaf_branch matched key_slice old nibbles value
      if ltb 0 matched then some (new_extension_node (take matched key_slice) node) else some node

-- An extension, unless no nibble is left for it: above a branch that splits an extension, and below it.
abbrev pub extend : Bytes → Node → Node
extend [] node = node
extend (x ∷ xs) node = new_extension_node (x ∷ xs) node

-- `nibbles[matched]` panics where the whole key matched.
unfoldable pub put_extension : Bytes → Node → Bytes → Value → Option Node
put_extension key_slice next nibbles value = do
  let matched = prefix_matched_len key_slice nibbles
  branch_nibble ← get_elem? key_slice matched
  node_branch_nibble ← get_elem? nibbles matched
  b1 ← set_branch branch_nibble (extend (drop (matched + 1) key_slice) next) new_branch_node
  b2 ←
      set_branch node_branch_nibble (new_leaf_node_from_nibbles (drop (matched + 1) nibbles) value)
        b1
  some (extend (take matched key_slice) b2)

unfoldable mutual
  pub put_node : Node → Bytes → Value → Option Node
  put_node (leaf key_slice old) nibbles value = put_leaf key_slice old nibbles value
  put_node (branch old index branches) [] value = set_value value (branch old index branches)
  put_node (branch old index branches) (b ∷ remaining) value = get_elem? index b >>= λ slot.
      elim slot [
        | none ↦ some (
            branch old (set index b (some (length_nodes branches)))
              (append_node branches (new_leaf_node_from_nibbles remaining value)))
        | some i ↦ put_child branches i remaining value >>= λ bs. some (branch old index bs)
      ]
  put_node (extension key_slice next) nibbles value =
      let matched = prefix_matched_len key_slice nibbles in
      let below = put_node next (drop matched nibbles) value in
      if ltb matched (length key_slice)
      then put_extension key_slice next nibbles value
      else below >>= λ n. some (extension key_slice n)

  pub put_child : Nodes → ℕ → Bytes → Value → Option Nodes
  put_child nil i nibbles value = none
  put_child (cons node nodes) zero nibbles value =
      put_node node nibbles value >>= λ n. some (cons n nodes)
  put_child (cons node nodes) (suc i) nibbles value =
      put_child nodes i nibbles value >>= λ ns. some (cons node ns)
