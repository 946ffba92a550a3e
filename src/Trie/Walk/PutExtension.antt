-- ===== src/Trie/Walk/PutExtension.antt =====
-- `Put` at an extension that the key leaves before its end.
use block_preempt.Prelude.{
  ℕ, ◌+◌, ◌<◌, ◌≡◌, refl, sym, ◌∙◌, ◌≢◌, none, some, [], ◌∷◌, ◌++◌, length, arith, some_inj,
  bind_then, subst, drop, get_elem?, length-append,
}
use block_preempt.Trie.Branch.{new_branch_node, set_branch}
use mathlib.Core.Path.{subst₂}
use mathlib.Core.List.{append-nil}
use block_preempt.Trie.Nibbles.{Bytes, prefix_matched_len}
use block_preempt.Trie.Nibbles.Prefix.{
  Apart, split, prefix_matched_len-append, take-shared, drop-shared_suc, get_elem?-shared,
}
use block_preempt.Trie.Node.{Value, Node, leaf, extension}
use block_preempt.Trie.Valid.{IsKey, IsNode}
use block_preempt.Trie.Walk.{missing, get_node, extend, put_extension}
use block_preempt.Trie.Walk.Reads.{get_extension-append, get_extension_short}
use block_preempt.Trie.Walk.Puts.{Puts, Behind, fork, Puts-extend, IsKey-rest, IsKey-shared}
use block_preempt.Trie.Walk.PutLeaf.{IsNode-extend}

extend-cons :
    (p : Bytes) (a : ℕ) (x : Bytes) (n : Node) → extend (p ++ a ∷ x) n ≡ extension (p ++ a ∷ x) n
extend-cons [] a x n = refl
extend-cons (b ∷ p) a x n = refl

drop-shared_one : (p : Bytes) (a : ℕ) (x : Bytes) → drop (length p + 1) (p ++ a ∷ x) ≡ x
drop-shared_one p a x = ground (arith, drop-shared_suc p a x)

extension-Behind :
    (a : ℕ) (x : Bytes) (next : Node) → Behind (extension (a ∷ x) next) a (extend x next)
unfolding get_node prefix_matched_len
extension-Behind a x next = record {
  at_nil = ground arith;
  at_same = λ r. get_extension-append (a ∷ []) x r next;
  at_ne = λ d r ne. ground arith;
}

-- What a write of `v` at `y` to the extension `x` of `next` comes to.
abbrev Written : (x : Bytes) (next : Node) (y v : Bytes) → Type 0
Written x next y v =
    (n' : Node) × (put_extension x next y (some v) ≡ some n')
    × IsNode n'
    × Puts (extension x next) n' y v

written :
    (p : Bytes) (a : ℕ) (x : Bytes) (next : Node) (b : ℕ) (s v : Bytes)
    → a ≢ b
    → IsKey (p ++ a ∷ x)
    → IsNode next
    → IsKey (p ++ b ∷ s)
    → Written (p ++ a ∷ x) next (p ++ b ∷ s) v
unfolding put_extension
written p a x next b s v ne hx hn hy =
    let key_x = IsKey-rest p (a ∷ x) hx in
    let key_s = IsKey-rest p (b ∷ s) hy in
    let (n', e, node, puts) =
      fork (extension (a ∷ x) next) a (extend x next) b s v (extension-Behind a x next) ne key_x.0
        key_s.0 (IsNode-extend x next key_x.1 hn) key_s.1 in
    (
      extend p n',
      rw (prefix_matched_len-append p (a ∷ x) (b ∷ s) ne) (
          simp (get_elem?-shared, drop-shared_one, take-shared)
            (bind_then (set_branch a (extend x next) new_branch_node)
              (set_branch b (leaf s (some v))) (λ n. some (extend p n)) e)),
      IsNode-extend p n' (IsKey-shared p (a ∷ x) hx) node,
      Puts-extend (extension (a ∷ x) next) (extension (p ++ a ∷ x) next) p
          (λ k.
            subst (λ n. get_node n (p ++ k) ≡ get_node (extension (a ∷ x) next) k)
              (extend-cons p a x next) (get_extension-append p (a ∷ x) k next))
          (λ k stops.
            subst (λ n. get_node n k ≡ missing) (extend-cons p a x next)
              (get_extension_short p (a ∷ x) k next (stops (a ∷ x))))
          puts,
    )

pub matched_all : (p : Bytes) (a : ℕ) (x : Bytes) → prefix_matched_len (p ++ a ∷ x) p ≡ length p
matched_all p a x = rw append-nil at (prefix_matched_len-append p (a ∷ x) [] tt)

get_elem?_end : (p : Bytes) → get_elem? p (length p) ≡ none
get_elem?_end [] = refl
get_elem?_end (a ∷ p) = get_elem?_end p

-- The whole key matched, and there is no nibble left for its branch: the source panics.
pub put_extension_exhausted :
    (p : Bytes) (a : ℕ) (x : Bytes) (next : Node) (value : Value)
    → put_extension (p ++ a ∷ x) next p value ≡ none
unfolding put_extension
put_extension_exhausted p a x next value =
    rw (matched_all p a x) (rw (get_elem?-shared p a x) (rw (get_elem?_end p)))

parted :
    (p l : Bytes) (next : Node) (r v : Bytes) (n' : Node)
    → Apart l r
    → prefix_matched_len (p ++ l) (p ++ r) < length (p ++ l)
    → IsKey (p ++ l)
    → IsNode next
    → IsKey (p ++ r)
    → put_extension (p ++ l) next (p ++ r) (some v) ≡ some n'
    → IsNode n' × Puts (extension (p ++ l) next) n' (p ++ r) v
parted p [] next r v n' h lt hl hn hr e =
    absurd (omega (arith, prefix_matched_len-append p [] r h, length-append p []))
parted p (a ∷ x) next [] v n' h lt hl hn hr e =
    let none_put = put_extension_exhausted p a x next (some v) in
    let e' : put_extension (p ++ a ∷ x) next p (some v) ≡ some n' = rw append-nil at e in cc
parted p (a ∷ x) next (b ∷ s) v n' h lt hl hn hr e =
    let (n₁, e₁, node, puts) = written p a x next b s v h hl hn hr in
    subst (λ n. IsNode n × Puts (extension (p ++ a ∷ x) next) n (p ++ b ∷ s) v)
      (some_inj (sym e₁ ∙ e)) (node, puts)

-- Where `Put` at such an extension returns, it does what a write has to do.
pub put_extension-Puts :
    (x : Bytes) (next : Node) (y v : Bytes) (n' : Node)
    → prefix_matched_len x y < length x
    → IsKey x
    → IsNode next
    → IsKey y
    → put_extension x next y (some v) ≡ some n'
    → IsNode n' × Puts (extension x next) n' y v
put_extension-Puts x next y v n' lt hx hn hy e =
    let s = split x y in
    let P : Bytes → Bytes → Type 0 = λ a b.
      prefix_matched_len a b < length a
      → IsKey a
      → IsKey b
      → put_extension a next b (some v) ≡ some n'
      → IsNode n' × Puts (extension a next) n' b v in
    subst₂ P (sym s.left_eq) (sym s.right_eq)
      (λ l ka kb q. parted s.shared s.left next s.right v n' s.apart l ka hn kb q) lt hx hy e
