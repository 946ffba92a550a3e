-- ===== src/Trie/Walk/Reads.antt =====
-- What `Get` reads from a node whose keys go on behind a common part.
use mathlib.Core.Option
use native.Mathlib.Decide.{ℕ_discrete}
use block_preempt.Prelude.{
  ℕ, zero, suc, ◌<◌, ◌≡◌, refl, sym, ◌∙◌, ◌≢◌, Option, none, some, inl, inr, [], ◌∷◌, ◌++◌, length,
  length-append, if◌then◌else◌, get_elem?, drop, arith, true, ltb, Option-cases, lt→ltb, ◌>>=◌,
}
use block_preempt.Trie.Nibbles.{Bytes, prefix_matched_len}
use block_preempt.Trie.Node.{Value, Index, Node, branch, Nodes, nil, cons, get_node?}
use block_preempt.Trie.Branch.Insertion.{at_slot, child_at}
use block_preempt.Trie.Walk.{Reply, missing, get_leaf, get_node, get_child, extend}

pub get_child-eq :
    (bs : Nodes) (i : ℕ) (key : Bytes)
    → get_child bs i key ≡ (get_node? bs i >>= λ n. get_node n key)
unfolding get_node
get_child-eq nil i key = refl
get_child-eq (cons n bs) zero key = refl
get_child-eq (cons n bs) (suc i) key = get_child-eq bs i key

pub get_leaf-append :
    (p x key : Bytes) (v : Value) → get_leaf (p ++ x) v (p ++ key) ≡ get_leaf x v key
unfolding prefix_matched_len
get_leaf-append [] x key v = refl
get_leaf-append (n ∷ p) x key v = ground (arith, get_leaf-append p x key v)

pub get_leaf_short :
    (p x key : Bytes) (v : Value)
    → prefix_matched_len (p ++ x) key < length p
    → get_leaf (p ++ x) v key ≡ missing
get_leaf_short p x key v h = ground (arith, length-append p x)

-- What `Get` reads behind the entry of a branch; `none` is a position out of range.
abbrev pub read : Option (Option Node) → Bytes → Option Reply
read none key = none
read (some none) key = missing
read (some (some n)) key = get_node n key

read-at_slot :
    (bs : Nodes) (slot : Option ℕ) (key : Bytes)
    → elim slot [ none ↦ missing | some i ↦ get_child bs i key ] ≡ read (at_slot bs slot) key
read-at_slot bs none key = refl
read-at_slot bs (some i) key = get_child-eq bs i key ∙ behind (get_node? bs i)
  where
    behind : (o : Option Node) → (o >>= λ n. get_node n key) ≡ read (Option.map some o) key
    behind none = refl
    behind (some n) = refl

pub get_branch-eq :
    (v : Value) (ix : Index) (bs : Nodes) (d : ℕ) (key : Bytes)
    → get_node (branch v ix bs) (d ∷ key) ≡ read (child_at ix bs d) key
unfolding get_node
get_branch-eq v ix bs d key = elim (Option-cases (get_elem? ix d)) [
  | inl e ↦ rw e
  | inr (slot, e) ↦ rw e (read-at_slot bs slot key)
]

-- `Get` at an extension, the empty one included.
abbrev through : Bytes → Node → Bytes → Option Reply
through x next key =
    let matched = prefix_matched_len x key in
    if ltb matched (length x) then missing else get_node next (drop matched key)

get_extend : (x key : Bytes) (next : Node) → get_node (extend x next) key ≡ through x next key
unfolding get_node prefix_matched_len
get_extend [] key next = refl
get_extend (n ∷ x) key next = refl

prefix_matched_len-cons :
    (n : ℕ) (x y : Bytes) → prefix_matched_len (n ∷ x) (n ∷ y) ≡ suc (prefix_matched_len x y)
unfolding prefix_matched_len
prefix_matched_len-cons n x y = ground arith

ltb-suc : (a b : ℕ) → ltb (suc a) (suc b) ≡ ltb a b
ltb-suc a b = ground arith

through-append :
    (p x key : Bytes) (next : Node) → through (p ++ x) next (p ++ key) ≡ through x next key
through-append [] x key next = refl
through-append (n ∷ p) x key next = rw (prefix_matched_len-cons n (p ++ x) (p ++ key)) (
    rw (ltb-suc (prefix_matched_len (p ++ x) (p ++ key)) (length (p ++ x)))
      (through-append p x key next))

pub get_extension-append :
    (p x key : Bytes) (next : Node)
    → get_node (extend (p ++ x) next) (p ++ key) ≡ get_node (extend x next) key
get_extension-append p x key next =
    get_extend (p ++ x) (p ++ key) next ∙ through-append p x key next ∙ sym (get_extend x key next)

pub get_extension_short :
    (p x key : Bytes) (next : Node)
    → prefix_matched_len (p ++ x) key < length p
    → get_node (extend (p ++ x) next) key ≡ missing
get_extension_short p x key next h =
    get_extend (p ++ x) key next
    ∙ rw (
        lt→ltb (prefix_matched_len (p ++ x) key) (length (p ++ x))
          (omega (arith, length-append p x)))

pub get_leaf_self : (key : Bytes) (v : Value) → get_leaf key v key ≡ some (v, true)
unfolding prefix_matched_len
get_leaf_self [] v = refl
get_leaf_self (n ∷ key) v = ground (arith, get_leaf_self key v)

pub get_leaf_ne : (x key : Bytes) (v : Value) → key ≢ x → get_leaf x v key ≡ missing
unfolding prefix_matched_len
get_leaf_ne [] [] v ne = absurd (ne refl)
get_leaf_ne [] (m ∷ key) v ne = ground arith
get_leaf_ne (n ∷ x) [] v ne = ground arith
get_leaf_ne (n ∷ x) (m ∷ key) v ne = elim (ℕ_discrete n m) [
  | yes e ↦ ground (arith, get_leaf_ne x key v (λ q. ne (cc)))
  | no d ↦ ground arith
]
