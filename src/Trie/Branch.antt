-- ===== src/Trie/Branch.antt =====
-- trie/trie_branch.go: the methods of a branch node. A returned error and a panic are both `none`:
-- the callers answer every error of these methods by a panic.
pub mod Slots
pub mod Children
pub mod Insertion
use mathlib.Core.Option
use block_preempt.Prelude.{
  ℕ, zero, suc, ◌+◌, ◌-◌, Bool, true, false, Option, none, some, List, [], ◌∷◌, map, get_elem?,
  drop, replicate, ltb, if◌then◌else◌, ◌>>=◌,
}
use Prim.Native.Nat.{pred}
use block_preempt.Trie.Nibbles.{Bytes}
use block_preempt.Trie.Node.{
  Value, Index, Node, leaf, branch, extension, Nodes, nil, cons, length_nodes, set_node,
  insert_node, erase_node,
}

unfoldable pub new_branch_node : Node
new_branch_node = branch none (replicate 16 none) nil

-- How many entries are not -1: `count` after the loop over `i`.
abbrev pub present : Index → ℕ
present [] = 0
present (none ∷ ix) = present ix
present (some i ∷ ix) = suc (present ix)

-- Entry `nibble` becomes `front`, and each later entry that is not -1 goes up by one.
abbrev pub insert_slot : ℕ → ℕ → Index → Index
insert_slot nibble front [] = []
insert_slot zero front (slot ∷ ix) = some front ∷ map (Option.map suc) ix
insert_slot (suc nibble) front (slot ∷ ix) = slot ∷ insert_slot nibble front ix

-- Entry `nibble` becomes -1, and each later entry that is not -1 goes down by one.
abbrev pub remove_slot : ℕ → Index → Index
remove_slot nibble [] = []
remove_slot zero (slot ∷ ix) = none ∷ map (Option.map pred) ix
remove_slot (suc nibble) (slot ∷ ix) = slot ∷ remove_slot nibble ix

-- A taken slot is written at position `nibble` of `Branches`, as the source has it, and not at the
-- position that the slot holds.
unfoldable pub set_branch : ℕ → Node → Node → Option Node
set_branch nibble node (branch v ix bs) = do
  slot ← get_elem? ix nibble
  elim slot [
    | some i ↦
        if ltb nibble (length_nodes bs) then some (branch v ix (set_node bs nibble node)) else none
    | none ↦
        let count = present (drop (suc nibble) ix) in
        let front = length_nodes bs - count in
        some (branch v (insert_slot nibble front ix) (insert_node front node bs))
  ]
set_branch nibble node _ = none

unfoldable pub remove_branch : ℕ → Node → Option Node
remove_branch nibble (branch v ix bs) = do
  slot ← get_elem? ix nibble
  i ← slot
  if ltb i (length_nodes bs)
      then some (branch v (remove_slot nibble ix) (erase_node i bs))
      else none
remove_branch nibble _ = none

unfoldable pub set_value : Value → Node → Option Node
set_value value (branch v ix bs) = some (branch value ix bs)
set_value value _ = none

unfoldable pub remove_value : Node → Option Node
remove_value (branch v ix bs) = some (branch none ix bs)
remove_value _ = none

abbrev pub is_some : Value → Bool
is_some none = false
is_some (some v) = true

unfoldable pub has_value : Node → Option Bool
has_value (branch v ix bs) = some (is_some v)
has_value _ = none
