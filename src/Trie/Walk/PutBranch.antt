-- ===== src/Trie/Walk/PutBranch.antt =====
-- `Put` at a branch: its own value, a nibble with no child, and a write that a child took.
use native.Mathlib.Decide.{ℕ_discrete}
use block_preempt.Prelude.{
  ℕ, ◌<◌, ◌≡◌, refl, ap, sym, ◌∙◌, ◌≢◌, ◌⊎◌, Option, none, some, inl, inr, [], ◌∷◌, length, arith,
  true, subst, get_elem?, set, length-set, some_inj, lt_of_get_elem?, get_elem?-set_self,
  get_elem?-set_ne, Option-cases,
}
use block_preempt.Trie.Nibbles.{Bytes}
use block_preempt.Trie.Node.{Value, Index, Node, leaf, branch, Nodes, length_nodes, append_node}
use block_preempt.Trie.Branch.Children.{
  get_node?-append_node_self, get_node?-append_node_ne, length_nodes-append_node,
}
use block_preempt.Trie.Branch.Insertion.{at_slot, child_at}
use block_preempt.Trie.Valid.{IsKey, IsNode, AreNodes, IsIndex, AreNodes-append_node}
use block_preempt.Trie.Walk.{missing, get_node, get_child}
use block_preempt.Trie.Walk.Reads.{read, get_branch-eq, get_leaf_self, get_leaf_ne}
use block_preempt.Trie.Walk.Puts.{Puts, get_node_leaf}

abbrev pub Writes : Node → Bytes → Bytes → Node → Type 0
Writes n key v n' = IsNode n' × Puts n n' key v

-- The same for the child at position `i`.
pub record WritesChild (bs : Nodes) (i : ℕ) (key v : Bytes) (bs' : Nodes) : Type 0 where
  pub nodes : AreNodes bs'
  pub same_length : length_nodes bs' ≡ length_nodes bs
  pub self : get_child bs' i key ≡ some (some v, true)
  pub other :
      (j : ℕ) (r : Bytes) → IsKey r → (j ≢ i) ⊎ (r ≢ key) → get_child bs' j r ≡ get_child bs j r

-- A nibble with no child yet.
module _ (o : Value) (ix : Index) (bs : Nodes) (b : ℕ) (rest v : Bytes)
    (index : IsIndex ix (length_nodes bs)) (free : get_elem? ix b ≡ some none) where
  abbrev pub ix₁ : Index
  ix₁ = set ix b (some (length_nodes bs))

  abbrev pub bs₁ : Nodes
  bs₁ = append_node bs (leaf rest (some v))

  b_lt : b < length ix
  b_lt = lt_of_get_elem? ix b none free

  slot_self : (i : ℕ) → get_elem? ix₁ b ≡ some (some i) → i ≡ length_nodes bs
  slot_self i e =
      some_inj (some_inj (sym e ∙ get_elem?-set_self ix b (some (length_nodes bs)) b_lt))

  slot_ne : (c : ℕ) → b ≢ c → get_elem? ix₁ c ≡ get_elem? ix c
  slot_ne c ne = get_elem?-set_ne ix (some (length_nodes bs)) ne

  grown_bound : (c i : ℕ) → get_elem? ix₁ c ≡ some (some i) → i < length_nodes bs₁
  grown_bound c i e = rw length_nodes-append_node (elim (ℕ_discrete b c) [
    | yes q ↦ omega (arith, slot_self i (subst (λ k. get_elem? ix₁ k ≡ some (some i)) (sym q) e))
    | no ne ↦ omega (arith, index.bound c i (sym (slot_ne c ne) ∙ e))
  ])

  grown_distinct :
      (c d i : ℕ) → get_elem? ix₁ c ≡ some (some i) → get_elem? ix₁ d ≡ some (some i) → c ≡ d
  grown_distinct c d i e f = elim (ℕ_discrete b c) [
    | yes q ↦ elim (ℕ_discrete b d) [
      | yes r ↦ sym q ∙ r
      | no nd ↦ absurd (
          omega (
            arith,
            slot_self i (subst (λ k. get_elem? ix₁ k ≡ some (some i)) (sym q) e),
            index.bound d i (sym (slot_ne d nd) ∙ f),
          ))
    ]
    | no nc ↦ elim (ℕ_discrete b d) [
      | yes r ↦ absurd (
          omega (
            arith,
            slot_self i (subst (λ k. get_elem? ix₁ k ≡ some (some i)) (sym r) f),
            index.bound c i (sym (slot_ne c nc) ∙ e),
          ))
      | no nd ↦ index.distinct c d i (sym (slot_ne c nc) ∙ e) (sym (slot_ne d nd) ∙ f)
    ]
  ]

  grown-IsIndex : IsIndex ix₁ (length_nodes bs₁)
  grown-IsIndex = record {
    nibbles = length-set ix b (some (length_nodes bs)) ∙ index.nibbles;
    bound = grown_bound;
    distinct = grown_distinct;
  }

  entry_self : child_at ix₁ bs₁ b ≡ some (some (leaf rest (some v)))
  entry_self =
      rw (get_elem?-set_self ix b (some (length_nodes bs)) b_lt) (rw get_node?-append_node_self)

  at_slot_grown :
      (d : ℕ) (slot : Option ℕ) → get_elem? ix d ≡ some slot → at_slot bs₁ slot ≡ at_slot bs slot
  at_slot_grown d none e = refl
  at_slot_grown d (some i) e =
      rw (get_node?-append_node_ne bs (leaf rest (some v)) i (index.bound d i e))

  entry_ne : (d : ℕ) → b ≢ d → child_at ix₁ bs₁ d ≡ child_at ix bs d
  entry_ne d ne = elim (Option-cases (get_elem? ix d)) [
    | inl e ↦ rw (slot_ne d ne) (rw e)
    | inr (slot, e) ↦ rw (slot_ne d ne) (rw e (at_slot_grown d slot e))
  ]

  grown_self : get_node (branch o ix₁ bs₁) (b ∷ rest) ≡ some (some v, true)
  grown_self =
      get_branch-eq o ix₁ bs₁ b rest
      ∙ ap (λ c. read c rest) entry_self
      ∙ get_node_leaf rest rest (some v)
      ∙ get_leaf_self rest (some v)

  grown_other :
      (j : Bytes) → j ≢ (b ∷ rest) → get_node (branch o ix₁ bs₁) j ≡ get_node (branch o ix bs) j
  unfolding get_node
  grown_other [] ne = refl
  grown_other (d ∷ r) ne =
      get_branch-eq o ix₁ bs₁ d r ∙ behind (ℕ_discrete b d) ∙ sym (get_branch-eq o ix bs d r)
    where
      new_leaf : b ≡ d → read (child_at ix₁ bs₁ b) r ≡ missing
      new_leaf q =
          ap (λ c. read c r) entry_self
          ∙ get_node_leaf rest r (some v)
          ∙ get_leaf_ne rest r (some v) (λ e. ne (cc))

      behind : Dec (b ≡ d) → read (child_at ix₁ bs₁ d) r ≡ read (child_at ix bs d) r
      behind (yes q) =
          subst (λ k. read (child_at ix₁ bs₁ k) r ≡ read (child_at ix bs k) r) q
            (new_leaf q ∙ rw free refl)
      behind (no nd) = ap (λ c. read c r) (entry_ne d nd)

  pub Writes-free :
      IsKey rest → AreNodes bs → Writes (branch o ix bs) (b ∷ rest) v (branch o ix₁ bs₁)
  Writes-free hr hs = (
    (grown-IsIndex, AreNodes-append_node (leaf rest (some v)) bs (hr, tt) hs),
    record { self = grown_self; other = λ j hj ne. grown_other j ne },
  )

-- A nibble with a child, which the write went to.
module _ (o : Value) (ix : Index) (bs : Nodes) (b i : ℕ) (rest v : Bytes) (bs' : Nodes)
    (index : IsIndex ix (length_nodes bs)) (taken : get_elem? ix b ≡ some (some i))
    (child : WritesChild bs i rest v bs') where
  taken_other :
      (j : Bytes)
      → IsKey j
      → j ≢ (b ∷ rest)
      → get_node (branch o ix bs') j ≡ get_node (branch o ix bs) j
  unfolding get_node
  taken_other [] hj ne = refl
  taken_other (d ∷ r) hj ne = elim (Option-cases (get_elem? ix d)) [
    | inl e ↦ rw e
    | inr (none, e) ↦ rw e
    | inr (some j, e) ↦ rw e (
        child.other j r hj.1 (elim (ℕ_discrete d b) [
          | yes q ↦ inr (λ f. ne (cc))
          | no nd ↦ inl (λ f. nd (index.distinct d b i (e ∙ ap (λ k. some (some k)) f) taken))
        ]))
  ]

  pub Writes-taken : Writes (branch o ix bs) (b ∷ rest) v (branch o ix bs')
  unfolding get_node
  Writes-taken = (
    (rw child.same_length index, child.nodes),
    record { self = rw taken child.self; other = taken_other },
  )

-- The value of the branch itself.
pub Writes-value :
    (o : Value) (ix : Index) (bs : Nodes) (v : Bytes)
    → IsNode (branch o ix bs)
    → Writes (branch o ix bs) [] v (branch (some v) ix bs)
unfolding get_node
Writes-value o ix bs v h = (h, record { self = refl; other = other })
  where
    other :
        (j : Bytes)
        → IsKey j
        → j ≢ []
        → get_node (branch (some v) ix bs) j ≡ get_node (branch o ix bs) j
    other [] hj ne = absurd (ne refl)
    other (d ∷ r) hj ne = refl
