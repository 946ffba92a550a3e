-- ===== src/Trie/Walk/PutNode.antt =====
-- `Put` at every node: where it returns, the node stays well formed and the reads are those of a map.
use mathlib.Core.List.{append-nil}
use mathlib.Core.Path.{subst₂}
use block_preempt.Prelude.{
  ℕ, zero, suc, ◌<◌, ◌≡◌, refl, ap, sym, ◌∙◌, ◌≢◌, ◌⊎◌, none, some, inl, inr, [], ◌∷◌, ◌++◌, length,
  arith, subst, get_elem?, ◌>>=◌, some_inj, >>=-eq-some, Option-cases,
}
use block_preempt.Trie.Nibbles.{Bytes, prefix_matched_len}
use block_preempt.Trie.Nibbles.Prefix.{prefix_cases, prefix_matched_len-append, drop-shared}
use block_preempt.Trie.Node.{Value, Node, leaf, branch, extension, Nodes, nil, cons}
use block_preempt.Trie.Branch.{set_value}
use block_preempt.Trie.Valid.{IsKey, IsNode, AreNodes, HasBytes}
use block_preempt.Trie.Walk.{
  missing, get_node, get_child, put_node, put_child, put_leaf, put_extension,
}
use block_preempt.Trie.Walk.Puts.{Puts, IsKey-rest}
use block_preempt.Trie.Walk.PutBranch.{Writes, WritesChild, Writes-value, Writes-free, Writes-taken}
use block_preempt.Trie.Walk.PutLeaf.{put_leaf-Puts}
use block_preempt.Trie.Walk.PutExtension.{put_extension-Puts}

Writes-leaf :
    (x : Bytes) (o : Value) (key v : Bytes) (n' : Node)
    → IsKey x
    → HasBytes o
    → IsKey key
    → put_leaf x o key (some v) ≡ some n'
    → Writes (leaf x o) key v n'
Writes-leaf x none key v n' hx ho hk e = absurd ho
Writes-leaf x (some o) key v n' hx ho hk e =
    let (n₁, e₁, node, puts) = put_leaf-Puts x o key v hx hk in
    subst (Writes (leaf x (some o)) key v) (some_inj (sym e₁ ∙ e)) (node, puts)

matched : (x rest : Bytes) → prefix_matched_len x (x ++ rest) ≡ length x
matched x rest = rw append-nil at (prefix_matched_len-append x [] rest tt)

get_extension_all :
    (x rest : Bytes) (next : Node) → get_node (extension x next) (x ++ rest) ≡ get_node next rest
unfolding get_node
get_extension_all x rest next = rw (matched x rest) (rw (drop-shared x rest) (ground arith))

get_extension_stop :
    (x j : Bytes) (next : Node)
    → prefix_matched_len x j < length x
    → get_node (extension x next) j ≡ missing
unfolding get_node
get_extension_stop x j next h = ground arith

put_extension_all :
    (x rest : Bytes) (next : Node) (value : Value)
    → put_node (extension x next) (x ++ rest) value
      ≡ (put_node next rest value >>= λ n. some (extension x n))
unfolding put_node
put_extension_all x rest next value = rw (matched x rest) (rw (drop-shared x rest) (ground arith))

put_extension_stop :
    (x j : Bytes) (next : Node) (value : Value)
    → prefix_matched_len x j < length x
    → put_node (extension x next) j value ≡ put_extension x next j value
unfolding put_node
put_extension_stop x j next value h = ground arith

Writes-below :
    (x : Bytes) (next : Node) (rest v : Bytes) (n' : Node)
    → IsKey x
    → Writes next rest v n'
    → Writes (extension x next) (x ++ rest) v (extension x n')
Writes-below x next rest v n' hx h = (
  (hx, h.0),
  record {
    self = get_extension_all x rest n' ∙ h.1.self;
    other = λ j hj ne. elim (prefix_cases x j) [
      | inl (k, e) ↦
          subst (λ y. get_node (extension x n') y ≡ get_node (extension x next) y) (sym e)
            (get_extension_all x k n'
              ∙ h.1.other k (IsKey-rest x k (subst IsKey e hj)) (λ q. ne (cc))
              ∙ sym (get_extension_all x k next))
      | inr (stops, _) ↦ get_extension_stop x j n' stops ∙ sym (get_extension_stop x j next stops)
    ];
  },
)

Writes-head :
    (n : Node) (bs : Nodes) (key v : Bytes) (n' : Node)
    → AreNodes (cons n bs)
    → Writes n key v n'
    → WritesChild (cons n bs) zero key v (cons n' bs)
unfolding get_node
Writes-head n bs key v n' h w = record {
  nodes = (w.0, h.1);
  same_length = refl;
  self = w.1.self;
  other = other;
}
  where
    other :
        (j : ℕ) (r : Bytes)
        → IsKey r
        → (j ≢ 0) ⊎ (r ≢ key)
        → get_child (cons n' bs) j r ≡ get_child (cons n bs) j r
    other zero r hr (inl ne) = absurd (ne refl)
    other zero r hr (inr ne) = w.1.other r hr ne
    other (suc j) r hr d = refl

writes_tail :
    (n : Node) (bs : Nodes) (i : ℕ) (key v : Bytes) (bs' : Nodes)
    → AreNodes (cons n bs)
    → WritesChild bs i key v bs'
    → WritesChild (cons n bs) (suc i) key v (cons n bs')
unfolding get_node
writes_tail n bs i key v bs' h w = record {
  nodes = (h.0, w.nodes);
  same_length = ap suc w.same_length;
  self = w.self;
  other = other;
}
  where
    other :
        (j : ℕ) (r : Bytes)
        → IsKey r
        → (j ≢ suc i) ⊎ (r ≢ key)
        → get_child (cons n bs') j r ≡ get_child (cons n bs) j r
    other zero r hr d = refl
    other (suc j) r hr (inl ne) = w.other j r hr (inl (λ e. ne (ap suc e)))
    other (suc j) r hr (inr ne) = w.other j r hr (inr ne)

mutual
  unfolding put_node set_value

  put_node-Writes :
      (n : Node) (key v : Bytes) (n' : Node)
      → IsNode n
      → IsKey key
      → put_node n key (some v) ≡ some n'
      → Writes n key v n'
  put_node-Writes (leaf x o) key v n' h hk e = Writes-leaf x o key v n' h.0 h.1 hk e
  put_node-Writes (branch o ix bs) [] v n' h hk e =
      subst (Writes (branch o ix bs) [] v) (some_inj e) (Writes-value o ix bs v h)
  put_node-Writes (branch o ix bs) (b ∷ rest) v n' h hk e = elim (Option-cases (get_elem? ix b)) [
    | inl q ↦ cc (rw q at e)
    | inr (none, q) ↦
        subst (Writes (branch o ix bs) (b ∷ rest) v) (some_inj (rw q at e))
          (Writes-free o ix bs b rest v h.0 q hk.1 h.1)
    | inr (some i, q) ↦
        let (bs', e₁, e₂) =
          >>=-eq-some (put_child bs i rest (some v)) (λ l. some (branch o ix l)) (rw q at e) in
        subst (Writes (branch o ix bs) (b ∷ rest) v) (some_inj e₂)
          (Writes-taken o ix bs b i rest v bs' h.0 q (put_child-Writes bs i rest v bs' h.1 hk.1 e₁))
  ]
  put_node-Writes (extension x next) key v n' h hk e = elim (prefix_cases x key) [
    | inl (rest, q) ↦
        let e' : put_node (extension x next) (x ++ rest) (some v) ≡ some n' =
          subst (λ k. put_node (extension x next) k (some v) ≡ some n') q e in
        let (n₁, e₁, e₂) =
          >>=-eq-some (put_node next rest (some v)) (λ n. some (extension x n))
            (sym (put_extension_all x rest next (some v)) ∙ e') in
        subst₂ (λ k m. Writes (extension x next) k v m) (sym q) (some_inj e₂)
          (Writes-below x next rest v n₁ h.0
            (put_node-Writes next rest v n₁ h.1 (IsKey-rest x rest (subst IsKey q hk)) e₁))
    | inr (stops, _) ↦
        put_extension-Puts x next key v n' stops h.0 h.1 hk
          (sym (put_extension_stop x key next (some v) stops) ∙ e)
  ]

  put_child-Writes :
      (bs : Nodes) (i : ℕ) (key v : Bytes) (bs' : Nodes)
      → AreNodes bs
      → IsKey key
      → put_child bs i key (some v) ≡ some bs'
      → WritesChild bs i key v bs'
  put_child-Writes nil i key v bs' h hk e = cc
  put_child-Writes (cons n bs) zero key v bs' h hk e =
      let (n₁, e₁, e₂) = >>=-eq-some (put_node n key (some v)) (λ m. some (cons m bs)) e in
      subst (WritesChild (cons n bs) zero key v) (some_inj e₂)
        (Writes-head n bs key v n₁ h (put_node-Writes n key v n₁ h.0 hk e₁))
  put_child-Writes (cons n bs) (suc i) key v bs' h hk e =
      let (l, e₁, e₂) = >>=-eq-some (put_child bs i key (some v)) (λ m. some (cons n m)) e in
      subst (WritesChild (cons n bs) (suc i) key v) (some_inj e₂)
        (writes_tail n bs i key v l h (put_child-Writes bs i key v l h.1 hk e₁))

-- Where `Put` returns, the node stays well formed, the key reads the value, and no other key changes.
pub put_node-Puts :
    (n : Node) (key v : Bytes) (n' : Node)
    → IsNode n
    → IsKey key
    → put_node n key (some v) ≡ some n'
    → IsNode n' × Puts n n' key v
put_node-Puts n key v n' h hk e = put_node-Writes n key v n' h hk e
