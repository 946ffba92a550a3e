-- ===== src/Trie/Walk/Puts.antt =====
-- What a write has to do to the reads, and the branch that sets two parting keys apart.
use native.Mathlib.Decide.{ℕ_discrete}
use mathlib.Core.List.{append-nil}
use block_preempt.Prelude.{
  ℕ, ◌<◌, ◌≡◌, refl, ap, sym, ◌∙◌, ◌≢◌, Option, none, some, inl, inr, [], ◌∷◌, ◌++◌, length, true,
  subst, ◌>>=◌,
}
use block_preempt.Trie.Nibbles.{Bytes, prefix_matched_len}
use block_preempt.Trie.Nibbles.Prefix.{prefix_cases}
use block_preempt.Trie.Node.{Value, Node, leaf}
use block_preempt.Trie.Branch.{new_branch_node, set_branch, is_some}
use block_preempt.Trie.Valid.{IsKey, IsNode}
use block_preempt.Trie.Valid.Table.{
  Table, Table-new, Table-insert, Table-IsNode, write, write_eq, write_ne,
}
use block_preempt.Trie.Walk.{missing, get_node, get_leaf, extend}
use block_preempt.Trie.Walk.Reads.{
  read, get_branch-eq, get_leaf_self, get_leaf_ne, get_extension-append, get_extension_short,
}

-- `n'` reads `v` at `key`, and every other key as `n` does.
pub record Puts (n n' : Node) (key v : Bytes) : Type 0 where
  pub self : get_node n' key ≡ some (some v, true)
  pub other : (j : Bytes) → IsKey j → j ≢ key → get_node n' j ≡ get_node n j

module _ {w : Value} {f : ℕ → Option Node} {n : Node} (t : Table w f n) where
  pub get-table_nil : get_node n [] ≡ some (w, is_some w)
  unfolding get_node
  get-table_nil = rw t.is_branch refl

  pub get-table_cons : (d : ℕ) (r : Bytes) → d < 16 → get_node n (d ∷ r) ≡ read (some (f d)) r
  get-table_cons d r lt =
      ap (λ m. get_node m (d ∷ r)) t.is_branch
      ∙ get_branch-eq w t.ix t.bs d r
      ∙ ap (λ o. read o r) (t.entries d lt)

-- `Get` at a leaf.
pub get_node_leaf : (x key : Bytes) (v : Value) → get_node (leaf x v) key ≡ get_leaf x v key
unfolding get_node
get_node_leaf x key v = refl

-- A node that has all of its keys behind the nibble `a`.
pub record Behind (o : Node) (a : ℕ) (m : Node) : Type 0 where
  pub at_nil : get_node o [] ≡ missing
  pub at_same : (r : Bytes) → get_node o (a ∷ r) ≡ get_node m r
  pub at_ne : (d : ℕ) (r : Bytes) → d ≢ a → get_node o (d ∷ r) ≡ missing

module _ (o : Node) (a : ℕ) (m : Node) (b : ℕ) (s v : Bytes) (behind : Behind o a m) (ne : a ≢ b)
    (a_lt : a < 16) (b_lt : b < 16) (m_node : IsNode m) (s_key : IsKey s) where
  fork_other :
      {n' : Node}
      → Table none (write b (leaf s (some v)) (write a m (λ d. none))) n'
      → (j : Bytes) → IsKey j
      → j ≢ (b ∷ s)
      → get_node n' j ≡ get_node o j
  fork_other t [] key jne = get-table_nil t ∙ sym behind.at_nil
  fork_other t (d ∷ r) key jne = get-table_cons t d r key.0 ∙ elim (ℕ_discrete b d) [
    | yes q ↦
        ap (λ e. read (some e) r) (write_eq b (leaf s (some v)) (write a m (λ k. none)) d q)
        ∙ get_node_leaf s r (some v)
        ∙ get_leaf_ne s r (some v) (λ e. jne (cc))
        ∙ sym (behind.at_ne d r (λ e. ne (cc)))
    | no d_ne_b ↦ elim (ℕ_discrete a d) [
      | yes q ↦
          ap (λ e. read (some e) r)
            (write_ne b (leaf s (some v)) (write a m (λ k. none)) d d_ne_b
              ∙ write_eq a m (λ k. none) d q)
          ∙ subst (λ k. get_node m r ≡ get_node o (k ∷ r)) q (sym (behind.at_same r))
      | no d_ne_a ↦
          ap (λ e. read (some e) r)
            (write_ne b (leaf s (some v)) (write a m (λ k. none)) d d_ne_b
              ∙ write_ne a m (λ k. none) d d_ne_a)
          ∙ sym (behind.at_ne d r (λ e. d_ne_a (sym e)))
    ]
  ]

  pub fork :
      (n' : Node) × ((set_branch a m new_branch_node >>= set_branch b (leaf s (some v))) ≡ some n')
      × IsNode n'
      × Puts o n' (b ∷ s) v
  unfolding new_branch_node
  fork =
      let (n₁, e₁, t₁) = Table-insert a m a_lt m_node refl (Table-new none) in
      let (n₂, e₂, t₂) =
        Table-insert b (leaf s (some v)) b_lt (s_key, tt) (write_ne a m (λ d. none) b ne) t₁ in
      (
        n₂,
        rw e₁ e₂,
        Table-IsNode t₂,
        record {
          self =
              get-table_cons t₂ b s b_lt
              ∙ ap (λ e. read (some e) s)
                  (write_eq b (leaf s (some v)) (write a m (λ k. none)) b refl)
              ∙ get_node_leaf s s (some v)
              ∙ get_leaf_self s (some v);
          other = fork_other t₂;
        },
      )

pub IsKey-rest : (p k : Bytes) → IsKey (p ++ k) → IsKey k
IsKey-rest [] k h = h
IsKey-rest (a ∷ p) k h = IsKey-rest p k h.1

pub IsKey-shared : (p k : Bytes) → IsKey (p ++ k) → IsKey p
IsKey-shared [] k h = tt
IsKey-shared (a ∷ p) k h = (h.0, IsKey-shared p k h.1)

-- A write behind a common part `p`.
module _ (o o' : Node) (p : Bytes) (append : (k : Bytes) → get_node o' (p ++ k) ≡ get_node o k)
    (short : (k : Bytes)
      → ((x : Bytes) → prefix_matched_len (p ++ x) k < length p)
      → get_node o' k ≡ missing) where
  pub Puts-extend : {n : Node} {key v : Bytes} → Puts o n key v → Puts o' (extend p n) (p ++ key) v
  Puts-extend {n} {key} {v} h = record {
    self = at_append key ∙ h.self;
    other = λ j hj ne. elim (prefix_cases p j) [
      | inl (k, e) ↦
          subst (λ l. get_node (extend p n) l ≡ get_node o' l) (sym e)
            (at_append k
              ∙ h.other k (IsKey-rest p k (subst IsKey e hj)) (λ q. ne (cc))
              ∙ sym (append k))
      | inr (_, stops) ↦ at_short j stops ∙ sym (short j stops)
    ];
  }
    where
      at_append : (k : Bytes) → get_node (extend p n) (p ++ k) ≡ get_node n k
      at_append k = rw append-nil at (get_extension-append p [] k n)

      at_short :
          (k : Bytes)
          → ((x : Bytes) → prefix_matched_len (p ++ x) k < length p)
          → get_node (extend p n) k ≡ missing
      at_short k stops = rw append-nil at (get_extension_short p [] k n (stops []))
