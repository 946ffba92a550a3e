-- ===== src/Trie/Delete/Undo.antt =====
-- `Delete` undoes `Put` at a leaf.
use native.Mathlib.Decide.{dec_lt}
use block_preempt.Prelude.{
  ℕ, suc, ◌≤◌, ◌<◌, ◌≡◌, refl, sym, ◌∙◌, ◌≢◌, none, some, subst, false, [], ◌∷◌, ◌++◌, length,
  length-append, get_elem?, lt_of_get_elem?, replicate, arith, ltb, ◌==◌,
}
use block_preempt.Trie.Nibbles.{Bytes}
use block_preempt.Trie.Nibbles.Prefix.{Apart, split, drop-shared}
use block_preempt.Trie.Node.{
  Value, Node, leaf, branch, Nodes, nil, cons, length_nodes, get_node?, erase_node,
}
use block_preempt.Trie.Branch.{new_branch_node, set_branch, set_value, insert_slot}
use block_preempt.Trie.Branch.Slots.{get_elem?-insert_slot_self}
use block_preempt.Trie.Valid.{IsKey}
use block_preempt.Trie.Walk.{extend, put_leaf_branch, put_leaf}
use block_preempt.Trie.Walk.Puts.{IsKey-rest}
use block_preempt.Trie.Walk.PutLeaf.{set_leaf-cons, zero-eq-suc, put_leaf_shared}
use block_preempt.Trie.Delete.{delete_node, delete_leaf_child}
use block_preempt.Trie.Delete.Slots.{
  single, single-free, single-only, set-insert_slot, replicate-free, present-replicate,
  present_behind, present_ahead, first_nibble-single,
}

set_first :
    (a : ℕ) (m : Node) (v : Value)
    → a < 16
    → set_branch a m (branch v (replicate 16 none) nil) ≡ some (branch v (single 16 a) (cons m nil))
unfolding set_branch
set_first a m v lt = rw (replicate-free 16 a lt) (rw (present-replicate 16 (suc a)) refl)

-- The slot of `b`, and the position of its child, where the index has the slot `a` alone.
set_behind :
    (a b : ℕ) (m n : Node) (v : Value)
    → a < b
    → b < 16
    → set_branch b m (branch v (single 16 a) (cons n nil))
      ≡ some (branch v (insert_slot b 1 (single 16 a)) (cons n (cons m nil)))
unfolding set_branch
set_behind a b m n v l lt =
    rw (single-free 16 a b lt (λ e. absurd (omega arith)))
      (rw (present_behind 16 a (suc b) (omega arith) (omega arith)) refl)

set_ahead :
    (a b : ℕ) (m n : Node) (v : Value)
    → b < a
    → a < 16
    → set_branch b m (branch v (single 16 a) (cons n nil))
      ≡ some (branch v (insert_slot b 0 (single 16 a)) (cons m (cons n nil)))
unfolding set_branch
set_ahead a b m n v l lt =
    rw (single-free 16 a b (omega arith) (λ e. absurd (omega arith)))
      (rw (present_ahead 16 a (suc b) lt (omega arith)) refl)

-- A write at `y` to the leaf of `x`, where the two part at once, and its undoing.
abbrev Undone : (x o y v : Bytes) → Type 0
Undone x o y v =
    (n : Node) × (put_leaf_branch 0 x (some o) y (some v) ≡ some n)
    × (delete_node n y ≡ some (some (leaf x (some o))))

Undone-below : (o : Bytes) (b : ℕ) (s v : Bytes) → b < 16 → Undone [] o (b ∷ s) v
unfolding put_leaf_branch new_branch_node set_value delete_node
Undone-below o b s v lt = (
  branch (some o) (single 16 b) (cons (leaf s (some v)) nil),
  rw (zero-eq-suc (length s)) (simp set_leaf-cons (set_first b (leaf s (some v)) (some o) lt)),
  refl,
)

Undone-above : (a : ℕ) (x o v : Bytes) → a < 16 → Undone (a ∷ x) o [] v
unfolding put_leaf_branch new_branch_node set_value delete_node
Undone-above a x o v lt = (
  branch (some v) (single 16 a) (cons (leaf x (some o)) nil),
  rw (zero-eq-suc (length x))
      (simp set_leaf-cons (rw (set_first a (leaf x (some o)) (some v) lt) refl)),
  rw (first_nibble-single 16 a lt) refl,
)

-- The slot of `b` is taken out of the two, and the leaf that is left takes the branch's place.
taken_out :
    (a b f : ℕ) (bs : Nodes) (x o s v : Bytes)
    → a < 16
    → b < 16
    → b ≢ a
    → get_node? bs f ≡ some (leaf s (some v))
    → erase_node f bs ≡ cons (leaf x (some o)) nil
    → (length_nodes bs == 1) ≡ false
    → ((d k : ℕ) → b < d → get_elem? (single 16 a) d ≡ some (some k) → f ≤ k)
    → delete_node (branch none (insert_slot b f (single 16 a)) bs) (b ∷ s)
      ≡ some (some (leaf (a ∷ x) (some o)))
unfolding delete_node delete_leaf_child
taken_out a b f bs x o s v la lb ne child rest two above =
    let free = single-free 16 a b lb ne in
    let here =
      get_elem?-insert_slot_self b f (single 16 a) (lt_of_get_elem? (single 16 a) b none free) in
    let back =
      set-insert_slot b f (single 16 a) free (λ d k l e. omega (arith, (single-only 16 a d k e).1))
        above in
    rw two (rw here (rw child (rw rest (rw back (rw (first_nibble-single 16 a la) refl)))))

Undone-apart :
    (a : ℕ) (x o : Bytes) (b : ℕ) (s v : Bytes)
    → a ≢ b
    → a < 16
    → b < 16
    → Undone (a ∷ x) o (b ∷ s) v
unfolding put_leaf_branch new_branch_node
Undone-apart a x o b s v ne la lb = elim (dec_lt a b) [
  | yes l ↦ (
    branch none (insert_slot b 1 (single 16 a))
        (cons (leaf x (some o)) (cons (leaf s (some v)) nil)),
    rw (zero-eq-suc (length x)) (
        rw (zero-eq-suc (length s)) (
          simp set_leaf-cons (
            rw (set_first a (leaf x (some o)) none la)
              (set_behind a b (leaf s (some v)) (leaf x (some o)) none l lb)))),
    taken_out a b 1 _ x o s v la lb (λ e. ne (sym e)) refl refl refl
        (λ d k lt e. absurd (omega (arith, (single-only 16 a d k e).0))),
  )
  | no ge ↦
      let l : b < a = omega (arith, ne) in
      (
        branch none (insert_slot b 0 (single 16 a))
            (cons (leaf s (some v)) (cons (leaf x (some o)) nil)),
        rw (zero-eq-suc (length x)) (
            rw (zero-eq-suc (length s)) (
              simp set_leaf-cons (
                rw (set_first a (leaf x (some o)) none la)
                  (set_ahead a b (leaf s (some v)) (leaf x (some o)) none l la)))),
        taken_out a b 0 _ x o s v la lb (λ e. ne (sym e)) refl refl refl (λ d k lt e. omega arith),
      )
]

undone : (x o y v : Bytes) → Apart x y → x ≢ y → IsKey x → IsKey y → Undone x o y v
undone [] o [] v h ne hx hy = absurd (ne refl)
undone [] o (b ∷ s) v h ne hx hy = Undone-below o b s v hy.0
undone (a ∷ x) o [] v h ne hx hy = Undone-above a x o v hx.0
undone (a ∷ x) o (b ∷ s) v h ne hx hy = Undone-apart a x o b s v h hx.0 hy.0

delete_node-extend :
    (p y x o : Bytes) (n : Node)
    → delete_node n y ≡ some (some (leaf x (some o)))
    → delete_node (extend p n) (p ++ y) ≡ some (some (leaf (p ++ x) (some o)))
unfolding delete_node
delete_node-extend [] y x o n e = e
delete_node-extend (c ∷ p) y x o n e =
    let long : ltb (length (c ∷ p ++ y)) (length (c ∷ p)) ≡ false =
      ground (arith, length-append p y) in
    rw long (rw (drop-shared p y) (rw e refl))

-- At a leaf, for keys of nibbles: `Put` of a value under a key that is not the leaf's returns, and
-- `Delete` of that key from the result returns the leaf itself, whichever way the two keys part.
pub delete_node-put_leaf :
    (x o y v : Bytes)
    → IsKey x
    → IsKey y
    → x ≢ y
    → (n : Node) × (put_leaf x (some o) y (some v) ≡ some n)
      × (delete_node n y ≡ some (some (leaf x (some o))))
delete_node-put_leaf x o y v hx hy ne =
    let s = split x y in
    let hx' : IsKey (s.shared ++ s.left) = subst IsKey s.left_eq hx in
    let hy' : IsKey (s.shared ++ s.right) = subst IsKey s.right_eq hy in
    let ne' : s.left ≢ s.right = λ q. ne (cc (s.left_eq, s.right_eq, q)) in
    let (n, e, d) =
      undone s.left o s.right v s.apart ne' (IsKey-rest s.shared s.left hx')
        (IsKey-rest s.shared s.right hy') in
    subst
      (λ k.
        (m : Node) × (put_leaf k (some o) y (some v) ≡ some m)
        × (delete_node m y ≡ some (some (leaf k (some o)))))
      (sym s.left_eq)
      (subst
        (λ k.
          (m : Node) × (put_leaf (s.shared ++ s.left) (some o) k (some v) ≡ some m)
          × (delete_node m k ≡ some (some (leaf (s.shared ++ s.left) (some o)))))
        (sym s.right_eq)
        (
          extend s.shared n,
          put_leaf_shared s.shared s.left (some o) s.right (some v) s.apart ne' ∙ rw e,
          delete_node-extend s.shared s.right s.left o n d,
        ))
