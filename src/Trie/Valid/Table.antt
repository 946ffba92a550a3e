-- ===== src/Trie/Valid/Table.antt =====
-- A branch that `SetBranch` built from a new one, seen as a table from nibbles to children.
use native.Mathlib.Decide.{ℕ_discrete}
use block_preempt.Prelude.{
  ℕ, zero, suc, ◌<◌, ◌≡◌, refl, ap, sym, ◌∙◌, ◌≢◌, Option, none, some, inl, inr, length, get_elem?,
  replicate, arith, ◌==◌, if◌then◌else◌, subst, Option-cases,
}
use block_preempt.Trie.Node.{Value, Index, Node, branch, Nodes, nil, length_nodes}
use block_preempt.Trie.Branch.{set_branch}
use block_preempt.Trie.Branch.Slots.{IsOrdered, length-insert_slot}
use block_preempt.Trie.Branch.Insertion.{
  at_slot, child_at, front, ix', bs', set_branch_free, ordered', child_at_self, child_at_ne,
}
use block_preempt.Trie.Valid.{IsNode, AreNodes, AreNodes-insert_node, IsIndex-IsOrdered}

pub record Table (w : Value) (f : ℕ → Option Node) (n : Node) : Type 0 where
  pub ix : Index
  pub bs : Nodes
  pub is_branch : n ≡ branch w ix bs
  pub nibbles : length ix ≡ 16
  pub ordered : IsOrdered 0 ix (length_nodes bs)
  pub entries : (d : ℕ) → d < 16 → child_at ix bs d ≡ some (f d)
  pub nodes : AreNodes bs

pub Table-IsNode : {w : Value} {f : ℕ → Option Node} {n : Node} → Table w f n → IsNode n
Table-IsNode t =
    subst IsNode (sym t.is_branch)
      (IsIndex-IsOrdered t.ix (length_nodes t.bs) t.nibbles t.ordered, t.nodes)

replicate-entries : (k d : ℕ) → d < k → get_elem? {A = Option ℕ} (replicate k none) d ≡ some none
replicate-entries zero d h = elim h [ ]
replicate-entries (suc k) zero h = refl
replicate-entries (suc k) (suc d) h = replicate-entries k d (omega arith)

pub Table-new : (w : Value) → Table w (λ d. none) (branch w (replicate 16 none) nil)
Table-new w = record {
  ix = replicate 16 none;
  bs = nil;
  is_branch = refl;
  nibbles = refl;
  ordered = refl;
  entries = λ d h. rw (replicate-entries 16 d h);
  nodes = tt;
}

at_slot-none : (bs : Nodes) (slot : Option ℕ) → at_slot bs slot ≡ some none → slot ≡ none
at_slot-none bs none h = refl
at_slot-none bs (some i) h = ground arith

free_slot :
    (ix : Index) (bs : Nodes) (c : ℕ) → child_at ix bs c ≡ some none → get_elem? ix c ≡ some none
free_slot ix bs c e = elim (Option-cases (get_elem? ix c)) [
  | inl q ↦ ground arith
  | inr (slot, q) ↦ q ∙ ap some (at_slot-none bs slot (rw q at e))
]

abbrev pub write : ℕ → Node → (ℕ → Option Node) → ℕ → Option Node
write c m f d = if c == d then some m else f d

pub write_eq : (c : ℕ) (m : Node) (f : ℕ → Option Node) (d : ℕ) → c ≡ d → write c m f d ≡ some m
write_eq c m f d e = ground arith

pub write_ne : (c : ℕ) (m : Node) (f : ℕ → Option Node) (d : ℕ) → c ≢ d → write c m f d ≡ f d
write_ne c m f d ne = ground arith

-- `SetBranch` at a nibble with no child succeeds, and writes that entry alone.
pub Table-insert :
    {w : Value} {f : ℕ → Option Node} {n : Node} (c : ℕ) (m : Node)
    → c < 16
    → IsNode m
    → f c ≡ none
    → Table w f n
    → (n' : Node) × (set_branch c m n ≡ some n') × Table w (write c m f) n'
Table-insert {w} {f} c m lt hm e t = (
  branch w ix₁ bs₁,
  rw t.is_branch (set_branch_free c m w t.ix t.bs t.ordered free),
  record {
    ix = ix₁;
    bs = bs₁;
    is_branch = refl;
    nibbles = length-insert_slot c (front c t.ix t.bs) t.ix ∙ t.nibbles;
    ordered = ordered' c m w t.ix t.bs t.ordered free;
    entries = λ d h. entry d h;
    nodes = AreNodes-insert_node (front c t.ix t.bs) m t.bs hm t.nodes;
  },
)
  where
    free : get_elem? t.ix c ≡ some none
    free = free_slot t.ix t.bs c (t.entries c lt ∙ ap some e)

    ix₁ : Index
    ix₁ = ix' c m w t.ix t.bs t.ordered free

    bs₁ : Nodes
    bs₁ = bs' c m w t.ix t.bs t.ordered free

    entry : (d : ℕ) → d < 16 → child_at ix₁ bs₁ d ≡ some (write c m f d)
    entry d h = elim (ℕ_discrete c d) [
      | yes q ↦
          subst (λ k. child_at ix₁ bs₁ k ≡ some (write c m f k)) q
            (child_at_self c m w t.ix t.bs t.ordered free ∙ ap some (sym (write_eq c m f c refl)))
      | no ne ↦
          child_at_ne c m w t.ix t.bs t.ordered free d ne
          ∙ t.entries d h
          ∙ ap some (sym (write_ne c m f d ne))
    ]
