-- ===== src/Trie/Walk/Exhausted.antt =====
-- A key that ends inside an extension: trie.go takes `nibbles[matched]` past its end.
use block_preempt.Prelude.{
  ℕ, ◌≡◌, refl, true, none, ◌∷◌, ◌++◌, length, length-append, ltb, lt→ltb, arith,
}
use block_preempt.Trie.Nibbles.{Bytes, prefix_matched_len}
use block_preempt.Trie.Node.{Value, Node, extension}
use block_preempt.Trie.Walk.{missing, get_node, put_node}
use block_preempt.Trie.Walk.PutExtension.{matched_all, put_extension_exhausted}

-- For a key that is a proper prefix of the nibbles of an extension, `Get` at the extension answers that
-- it is missing, and `Put` at the extension panics, whatever the child and the value are.
pub put_node_exhausted :
    (p : Bytes) (a : ℕ) (x : Bytes) (next : Node) (value : Value)
    → (get_node (extension (p ++ a ∷ x) next) p ≡ missing)
      × (put_node (extension (p ++ a ∷ x) next) p value ≡ none)
unfolding get_node put_node
put_node_exhausted p a x next value =
    let short : ltb (prefix_matched_len (p ++ a ∷ x) p) (length (p ++ a ∷ x)) ≡ true =
      lt→ltb (prefix_matched_len (p ++ a ∷ x) p) (length (p ++ a ∷ x))
        (omega (arith, matched_all p a x, length-append p (a ∷ x))) in
    (rw short refl, rw short (put_extension_exhausted p a x next value))
