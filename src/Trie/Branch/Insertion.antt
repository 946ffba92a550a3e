-- ===== src/Trie/Branch/Insertion.antt =====
-- `SetBranch` at a free nibble, as a write to a table from nibbles to children.
use mathlib.Core.Option
use native.Mathlib.Decide.{dec_lt}
use block_preempt.Prelude.{
  ℕ, suc, ◌-◌, ◌<◌, ◌≡◌, refl, ◌≢◌, Option, none, some, inl, inr, get_elem?, lt_of_get_elem?, drop,
  arith, ◌>>=◌, Option-cases,
}
use block_preempt.Trie.Node.{
  Value, Index, Node, branch, Nodes, length_nodes, get_node?, insert_node,
}
use block_preempt.Trie.Branch.{present, insert_slot, set_branch}
use block_preempt.Trie.Branch.Slots.{
  IsOrdered, IsOrdered-insert_slot, IsOrdered-below, IsOrdered-above, get_elem?-insert_slot_self,
  get_elem?-insert_slot_below, get_elem?-insert_slot_above,
}
use block_preempt.Trie.Branch.Children.{
  get_node?-insert_node_self, get_node?-insert_node_below, get_node?-insert_node_above,
  length_nodes-insert_node,
}

-- What a slot leads to: no child, a child, or a position out of range (`none`).
abbrev pub at_slot : Nodes → Option ℕ → Option (Option Node)
at_slot bs none = some none
at_slot bs (some i) = Option.map some (get_node? bs i)

abbrev pub child_at : Index → Nodes → ℕ → Option (Option Node)
child_at ix bs d = get_elem? ix d >>= at_slot bs

abbrev pub front : ℕ → Index → Nodes → ℕ
front c ix bs = length_nodes bs - present (drop (suc c) ix)

module _ (c : ℕ) (node : Node) (v : Value) (ix : Index) (bs : Nodes)
    (ordered : IsOrdered 0 ix (length_nodes bs)) (free : get_elem? ix c ≡ some none) where
  abbrev pub ix' : Index
  ix' = insert_slot c (front c ix bs) ix

  abbrev pub bs' : Nodes
  bs' = insert_node (front c ix bs) node bs

  pub set_branch_free : set_branch c node (branch v ix bs) ≡ some (branch v ix' bs')
  unfolding set_branch
  set_branch_free = rw free

  pub ordered' : IsOrdered 0 ix' (length_nodes bs')
  ordered' =
      rw length_nodes-insert_node (IsOrdered-insert_slot 0 (length_nodes bs) c ix ordered free)

  pub child_at_self : child_at ix' bs' c ≡ some (some node)
  child_at_self =
      rw (get_elem?-insert_slot_self c (front c ix bs) ix (lt_of_get_elem? ix c none free))
        (rw (get_node?-insert_node_self (front c ix bs) node bs (omega arith)))

  slot_below :
      (d : ℕ) (slot : Option ℕ)
      → d < c
      → get_elem? ix d ≡ some slot
      → at_slot bs' slot ≡ at_slot bs slot
  slot_below d none lt e = refl
  slot_below d (some i) lt e = rw (
      get_node?-insert_node_below (front c ix bs) node bs i
        (IsOrdered-below 0 (length_nodes bs) (suc c) d i ix ordered e (omega arith)) (omega arith))

  slot_above :
      (d : ℕ) (slot : Option ℕ)
      → c < d
      → get_elem? ix d ≡ some slot
      → at_slot bs' (Option.map suc slot) ≡ at_slot bs slot
  slot_above d none lt e = refl
  slot_above d (some i) lt e = rw (
      get_node?-insert_node_above (front c ix bs) node bs i
        (IsOrdered-above 0 (length_nodes bs) (suc c) d i ix ordered e lt) (omega arith))

  pub child_at_ne : (d : ℕ) → c ≢ d → child_at ix' bs' d ≡ child_at ix bs d
  child_at_ne d ne = elim (Option-cases (get_elem? ix d)) [
    | inl e ↦ rw e (elim (dec_lt c d) [
      | yes lt ↦ rw (get_elem?-insert_slot_above c (front c ix bs) ix d lt) (rw e)
      | no ge ↦ rw (get_elem?-insert_slot_below c (front c ix bs) ix d (omega arith)) (rw e)
    ])
    | inr (slot, e) ↦ rw e (elim (dec_lt c d) [
      | yes lt ↦
          rw (get_elem?-insert_slot_above c (front c ix bs) ix d lt) (rw e (slot_above d slot lt e))
      | no ge ↦
          rw (get_elem?-insert_slot_below c (front c ix bs) ix d (omega arith))
            (rw e (slot_below d slot (omega arith) e))
    ])
  ]
