-- ===== src/Trie/Walk/PutLeaf.antt =====
-- `Put` at a leaf, on all of its branches.
use native.Mathlib.Decide.{ℕ_discrete}
use mathlib.Core.List.{append-nil}
use block_preempt.Prelude.{
  ℕ, suc, ◌<◌, ◌≡◌, refl, ap, sym, ◌∙◌, ◌≢◌, none, some, [], ◌∷◌, ◌++◌, length, arith, false, subst,
  ltb, ◌==◌, ◌&&◌, ◌>>=◌, length-append, if◌then◌else◌,
}
use block_preempt.Trie.Nibbles.{Bytes}
use block_preempt.Trie.Nibbles.Prefix.{
  Apart, split, prefix_matched_len-append, take-shared, drop-shared_suc, get_elem?-shared,
}
use block_preempt.Trie.Node.{Value, Node, leaf, extension}
use block_preempt.Trie.Branch.{new_branch_node, set_branch, set_value}
use block_preempt.Trie.Valid.{IsKey, IsNode}
use block_preempt.Trie.Valid.Table.{
  Table, Table-new, Table-insert, Table-IsNode, write, write_eq, write_ne,
}
use block_preempt.Trie.Walk.{missing, get_node, extend, set_leaf, put_leaf_branch, put_leaf}
use block_preempt.Trie.Walk.Reads.{
  read, get_leaf_self, get_leaf_ne, get_leaf-append, get_leaf_short,
}
use block_preempt.Trie.Walk.Puts.{
  Puts, Behind, fork, get-table_nil, get-table_cons, get_node_leaf, Puts-extend, IsKey-rest,
  IsKey-shared,
}

set_leaf-nil : (v : Value) (n : Node) → set_leaf 0 [] v n ≡ some n
unfolding set_leaf
set_leaf-nil v n = refl

pub set_leaf-cons :
    (a : ℕ) (x : Bytes) (v : Value) (n : Node) → set_leaf 0 (a ∷ x) v n ≡ set_branch a (leaf x v) n
unfolding set_leaf
set_leaf-cons a x v n = ground arith

pub zero-eq-suc : (n : ℕ) → (0 == suc n) ≡ false
zero-eq-suc n = ground arith

-- A write at `y` to the leaf of `x`, where the two part at once.
abbrev Forked : (x o y v : Bytes) → Type 0
Forked x o y v =
    (n' : Node) × (put_leaf_branch 0 x (some o) y (some v) ≡ some n')
    × IsNode n'
    × Puts (leaf x (some o)) n' y v

leaf-Behind : (a : ℕ) (x o : Bytes) → Behind (leaf (a ∷ x) (some o)) a (leaf x (some o))
leaf-Behind a x o = record {
  at_nil = get_node_leaf (a ∷ x) [] (some o) ∙ get_leaf_ne (a ∷ x) [] (some o) (λ e. cc);
  at_same = λ r.
      get_node_leaf (a ∷ x) (a ∷ r) (some o)
      ∙ get_leaf-append (a ∷ []) x r (some o)
      ∙ sym (get_node_leaf x r (some o));
  at_ne = λ d r ne.
      get_node_leaf (a ∷ x) (d ∷ r) (some o) ∙ get_leaf_ne (a ∷ x) (d ∷ r) (some o) (λ e. ne (cc));
}

other_below :
    (o : Bytes) (b : ℕ) (s v : Bytes) {n' : Node}
    → Table (some o) (write b (leaf s (some v)) (λ k. none)) n'
    → (j : Bytes) → IsKey j
    → j ≢ (b ∷ s)
    → get_node n' j ≡ get_node (leaf [] (some o)) j
other_below o b s v t [] hj ne =
    get-table_nil t ∙ sym (get_node_leaf [] [] (some o) ∙ get_leaf_self [] (some o))
other_below o b s v t (d ∷ r) hj ne =
    get-table_cons t d r hj.0
    ∙ entry (ℕ_discrete b d)
    ∙ sym (get_node_leaf [] (d ∷ r) (some o) ∙ get_leaf_ne [] (d ∷ r) (some o) (λ e. cc))
  where
    entry : Dec (b ≡ d) → read (some (write b (leaf s (some v)) (λ k. none) d)) r ≡ missing
    entry (yes q) =
        ap (λ e. read (some e) r) (write_eq b (leaf s (some v)) (λ k. none) d q)
        ∙ get_node_leaf s r (some v)
        ∙ get_leaf_ne s r (some v) (λ e. ne (cc))
    entry (no q) = ap (λ e. read (some e) r) (write_ne b (leaf s (some v)) (λ k. none) d q)

other_above :
    (a : ℕ) (x o v : Bytes) {n' : Node}
    → Table (some v) (write a (leaf x (some o)) (λ k. none)) n'
    → (j : Bytes) → IsKey j
    → j ≢ []
    → get_node n' j ≡ get_node (leaf (a ∷ x) (some o)) j
other_above a x o v t [] hj ne = absurd (ne refl)
other_above a x o v t (d ∷ r) hj ne = get-table_cons t d r hj.0 ∙ entry (ℕ_discrete a d)
  where
    entry :
        Dec (a ≡ d)
        → read (some (write a (leaf x (some o)) (λ k. none) d)) r
          ≡ get_node (leaf (a ∷ x) (some o)) (d ∷ r)
    entry (yes q) =
        ap (λ e. read (some e) r) (write_eq a (leaf x (some o)) (λ k. none) d q)
        ∙ subst (λ k. get_node (leaf x (some o)) r ≡ get_node (leaf (a ∷ x) (some o)) (k ∷ r)) q
            (sym ((leaf-Behind a x o).at_same r))
    entry (no q) =
        ap (λ e. read (some e) r) (write_ne a (leaf x (some o)) (λ k. none) d q)
        ∙ sym ((leaf-Behind a x o).at_ne d r (λ e. q (sym e)))

Forked-below : (o : Bytes) (b : ℕ) (s v : Bytes) → b < 16 → IsKey s → Forked [] o (b ∷ s) v
unfolding put_leaf_branch new_branch_node set_value
Forked-below o b s v lt hs =
    let (n', e, t) = Table-insert b (leaf s (some v)) lt (hs, tt) refl (Table-new (some o)) in
    (
      n',
      rw (zero-eq-suc (length s)) (simp set_leaf-cons e),
      Table-IsNode t,
      record {
        self =
            get-table_cons t b s lt
            ∙ ap (λ e. read (some e) s) (write_eq b (leaf s (some v)) (λ k. none) b refl)
            ∙ get_node_leaf s s (some v)
            ∙ get_leaf_self s (some v);
        other = other_below o b s v t;
      },
    )

Forked-above : (a : ℕ) (x o v : Bytes) → a < 16 → IsKey x → Forked (a ∷ x) o [] v
unfolding put_leaf_branch new_branch_node set_value
Forked-above a x o v lt hx =
    let (n', e, t) = Table-insert a (leaf x (some o)) lt (hx, tt) refl (Table-new (some v)) in
    (
      n',
      rw (zero-eq-suc (length x)) (simp set_leaf-cons (rw e)),
      Table-IsNode t,
      record { self = get-table_nil t; other = other_above a x o v t },
    )

Forked-apart :
    (a : ℕ) (x o : Bytes) (b : ℕ) (s v : Bytes)
    → a ≢ b
    → a < 16
    → IsKey x
    → b < 16
    → IsKey s
    → Forked (a ∷ x) o (b ∷ s) v
unfolding put_leaf_branch
Forked-apart a x o b s v ne a_lt hx b_lt hs =
    let (n', e, node, puts) =
      fork (leaf (a ∷ x) (some o)) a (leaf x (some o)) b s v (leaf-Behind a x o) ne a_lt b_lt
        (hx, tt) hs in
    (
      n',
      rw (zero-eq-suc (length x)) (rw (zero-eq-suc (length s)) (simp set_leaf-cons e)),
      node,
      puts,
    )

forked : (x o y v : Bytes) → Apart x y → x ≢ y → IsKey x → IsKey y → Forked x o y v
forked [] o [] v h ne hx hy = absurd (ne refl)
forked [] o (b ∷ s) v h ne hx hy = Forked-below o b s v hy.0 hy.1
forked (a ∷ x) o [] v h ne hx hy = Forked-above a x o v hx.0 hx.1
forked (a ∷ x) o (b ∷ s) v h ne hx hy = Forked-apart a x o b s v h hx.0 hx.1 hy.0 hy.1

wrap :
    (p : Bytes) (n : Node)
    → (if ltb 0 (length p) then some (extension p n) else some n) ≡ some (extend p n)
wrap [] n = refl
wrap (a ∷ p) n = ground arith

module _ (p : Bytes) where
  set_leaf_shared :
      (x : Bytes) (v : Value) (n : Node) → set_leaf (length p) (p ++ x) v n ≡ set_leaf 0 x v n
  unfolding set_leaf
  set_leaf_shared [] v n = ground (arith, length-append p [])
  set_leaf_shared (a ∷ x) v n =
      ground (arith, length-append p (a ∷ x), get_elem?-shared p a x, drop-shared_suc p a x)

  eq_shared : (x : Bytes) → (length p == length (p ++ x)) ≡ (0 == length x)
  eq_shared x = ground (arith, length-append p x)

  put_leaf_branch_shared :
      (x : Bytes) (o : Value) (y : Bytes) (v : Value)
      → put_leaf_branch (length p) (p ++ x) o (p ++ y) v ≡ put_leaf_branch 0 x o y v
  unfolding put_leaf_branch
  put_leaf_branch_shared x o y v = rw (eq_shared x) (rw (eq_shared y) (simp set_leaf_shared))

  both_nil : (x y : Bytes) → x ≢ y → ((0 == length y) && (0 == length x)) ≡ false
  both_nil [] [] ne = absurd (ne refl)
  both_nil (a ∷ x) [] ne = zero-eq-suc (length x)
  both_nil x (b ∷ y) ne = rw (zero-eq-suc (length y)) refl

  pub put_leaf_shared :
      (x : Bytes) (o : Value) (y : Bytes) (v : Value)
      → Apart x y
      → x ≢ y
      → put_leaf (p ++ x) o (p ++ y) v ≡ (put_leaf_branch 0 x o y v >>= λ n. some (extend p n))
  unfolding put_leaf
  put_leaf_shared x o y v h ne = rw (prefix_matched_len-append p x y h) (
      rw (eq_shared y) (
        rw (eq_shared x) (rw (both_nil x y ne) (simp (put_leaf_branch_shared, take-shared, wrap)))))

put_leaf_self : (x : Bytes) (o v : Value) → put_leaf x o x v ≡ some (leaf x v)
unfolding put_leaf
put_leaf_self x o v = ground (arith, rw append-nil at (prefix_matched_len-append x [] [] tt))

Bytes-discrete : Discrete Bytes
Bytes-discrete = hlevel ℕ_discrete

pub IsNode-extend : (p : Bytes) (n : Node) → IsKey p → IsNode n → IsNode (extend p n)
IsNode-extend [] n hp hn = hn
IsNode-extend (a ∷ p) n hp hn = (hp, hn)

-- What a write of `v` at `y` to the leaf of `x` comes to.
abbrev pub Written : (x o y v : Bytes) → Type 0
Written x o y v =
    (n' : Node) × (put_leaf x (some o) y (some v) ≡ some n')
    × IsNode n'
    × Puts (leaf x (some o)) n' y v

Written-self : (x o v : Bytes) → IsKey x → Written x o x v
Written-self x o v hx = (
  leaf x (some v),
  put_leaf_self x (some o) (some v),
  (hx, tt),
  record {
    self = get_node_leaf x x (some v) ∙ get_leaf_self x (some v);
    other = λ j hj ne.
        get_node_leaf x j (some v)
        ∙ get_leaf_ne x j (some v) ne
        ∙ sym (get_node_leaf x j (some o) ∙ get_leaf_ne x j (some o) ne);
  },
)

Written-Apart :
    (p x o y v : Bytes)
    → Apart x y
    → x ≢ y
    → IsKey (p ++ x)
    → IsKey (p ++ y)
    → Written (p ++ x) o (p ++ y) v
Written-Apart p x o y v h ne hx hy =
    let (n', e, node, puts) = forked x o y v h ne (IsKey-rest p x hx) (IsKey-rest p y hy) in
    (
      extend p n',
      put_leaf_shared p x (some o) y (some v) h ne ∙ rw e,
      IsNode-extend p n' (IsKey-shared p x hx) node,
      Puts-extend (leaf x (some o)) (leaf (p ++ x) (some o)) p
          (λ k.
            get_node_leaf (p ++ x) (p ++ k) (some o)
            ∙ get_leaf-append p x k (some o)
            ∙ sym (get_node_leaf x k (some o)))
          (λ k stops. get_node_leaf (p ++ x) k (some o) ∙ get_leaf_short p x k (some o) (stops x))
          puts,
    )

-- `Put` at a leaf returns, and does what a write has to do.
pub put_leaf-Puts : (x o y v : Bytes) → IsKey x → IsKey y → Written x o y v
put_leaf-Puts x o y v hx hy = elim (Bytes-discrete x y) [
  | yes e ↦ subst (λ k. Written x o k v) e (Written-self x o v hx)
  | no ne ↦
      let s = split x y in
      subst (λ k. Written k o y v) (sym s.left_eq)
        (subst (λ k. Written (s.shared ++ s.left) o k v) (sym s.right_eq)
          (Written-Apart s.shared s.left o s.right v s.apart
            (λ q. ne (cc (s.left_eq, s.right_eq, q))) (subst IsKey s.left_eq hx)
            (subst IsKey s.right_eq hy)))
]
