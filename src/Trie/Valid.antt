-- ===== src/Trie/Valid.antt =====
-- Well-formed nodes, and nodes built by `SetBranch` from a new branch.
pub mod Table
use native.Mathlib.Decide.{dec_lt}
use mathlib.Core.Option
use block_preempt.Prelude.{
  ℕ, zero, suc, ◌<◌, ◌≤◌, ◌-◌, drop, ◌≡◌, refl, ap, sym, ◌∙◌, ◌≢◌, Option, none, some, inl, inr, [],
  ◌∷◌, ◌++◌, length, length-set, get_elem?, get_elem?-set_self, get_elem?-set_ne, set, replicate,
  arith, ◌==◌, if◌then◌else◌,
}
use block_preempt.Trie.Nibbles.{Bytes}
use block_preempt.Trie.Nibbles.RoundTrip.{AllBelow}
use block_preempt.Trie.Node.{
  Value, Index, Node, leaf, branch, extension, Nodes, nil, cons, length_nodes, get_node?,
  insert_node, append_node, set_node,
}
use block_preempt.Trie.Branch.{set_branch, insert_slot, present}
use block_preempt.Trie.Branch.Slots.{
  IsOrdered, IsOrdered-below, IsOrdered-above, length-insert_slot,
}

abbrev pub IsKey : Bytes → Type 0
IsKey = AllBelow 16

abbrev pub HasBytes : Value → Type 0
HasBytes none = ⊥
HasBytes (some v) = Unit

-- There is a slot for each nibble; the slots lie in range, and no two lead to one child.
pub record IsIndex (ix : Index) (n : ℕ) : Type 0 where
  pub nibbles : length ix ≡ 16
  pub bound : (c i : ℕ) → get_elem? ix c ≡ some (some i) → i < n
  pub distinct :
      (c d i : ℕ) → get_elem? ix c ≡ some (some i) → get_elem? ix d ≡ some (some i) → c ≡ d

abbrev mutual
  pub IsNode : Node → Type 0
  IsNode (leaf key_slice value) = IsKey key_slice × HasBytes value
  IsNode (branch value ix bs) = IsIndex ix (length_nodes bs) × AreNodes bs
  IsNode (extension key_slice next) = IsKey key_slice × IsNode next

  pub AreNodes : Nodes → Type 0
  AreNodes nil = Unit
  AreNodes (cons n ns) = IsNode n × AreNodes ns

pub AreNodes-insert_node :
    (i : ℕ) (m : Node) (ns : Nodes) → IsNode m → AreNodes ns → AreNodes (insert_node i m ns)
AreNodes-insert_node zero m ns h hs = (h, hs)
AreNodes-insert_node (suc i) m nil h hs = (h, tt)
AreNodes-insert_node (suc i) m (cons n ns) h hs = (hs.0, AreNodes-insert_node i m ns h hs.1)

pub AreNodes-append_node :
    (m : Node) (ns : Nodes) → IsNode m → AreNodes ns → AreNodes (append_node ns m)
AreNodes-append_node m nil h hs = (h, tt)
AreNodes-append_node m (cons n ns) h hs = (hs.0, AreNodes-append_node m ns h hs.1)

IsOrdered-lt :
    (s n d i : ℕ) (ix : Index) → IsOrdered s ix n → get_elem? ix d ≡ some (some i) → i < n
IsOrdered-lt s n d i ix h e = omega (arith, IsOrdered-below s n (suc d) d i ix h e (omega arith))

pub IsIndex-IsOrdered : (ix : Index) (n : ℕ) → length ix ≡ 16 → IsOrdered 0 ix n → IsIndex ix n
IsIndex-IsOrdered ix n len h = record {
  nibbles = len;
  bound = λ c i e. IsOrdered-lt 0 n c i ix h e;
  distinct = λ c d i e f. elim (dec_lt c d) [
    | yes lt ↦ absurd (omega (arith, below d c i lt e, above d i f))
    | no ge ↦ elim (dec_lt d c) [
      | yes lt ↦ absurd (omega (arith, below c d i lt f, above c i e))
      | no le ↦ omega arith
    ]
  ];
}
  where
    below : (c d i : ℕ) → d < c → get_elem? ix d ≡ some (some i) → i < n - present (drop c ix)
    below c d i lt e = IsOrdered-below 0 n c d i ix h e lt

    above : (c i : ℕ) → get_elem? ix c ≡ some (some i) → n - present (drop c ix) ≤ i
    above c i e = IsOrdered-above 0 n c c i ix h e (omega arith)
