-- ===== src/Algorithm/Clpa/Weights.antt =====
-- A vertex that moves: `ComputeEdges2Shard1` against the weights that its edges have.
use block_preempt.Prelude.{
  some_of_lt, ℕ, suc, ◌+◌, ◌<◌, ◌≡◌, refl, subst, sym, ap, ◌∙◌, ◌≢◌, false, some, List, [], ◌∷◌,
  length, get_or, Bool-cases, inl, inr, arith,
}
use block_preempt.Prelude.Int.{ℤ, pos, ◌+ℤ◌, +ℤ_comm, +ℤ_assoc}
use block_preempt.Account.Hex.{Str, str_eq, str_eq-false}
use block_preempt.Account.Table.{insert, lookup-insert_self, lookup-insert_ne}
use block_preempt.Algorithm.Graph.{neighbours}
use block_preempt.Algorithm.Graph.Vertices.{count}
use block_preempt.Algorithm.Clpa.{ClpaState, shard_of, min_from, shift_all, compute_edges2shard1}
use block_preempt.Algorithm.Clpa.Moves.{belongs, crosses, weight_at, cross_at, shift-Shifted}

pos_add : (m n : ℕ) → pos (m + n) ≡ pos m +ℤ pos n
unfolding ◌+ℤ◌
pos_add m n = ground arith

swap_last : (x y z : ℤ) → x +ℤ y +ℤ z ≡ x +ℤ z +ℤ y
swap_last x y z = +ℤ_assoc x y z ∙ ap (λ w. x +ℤ w) (+ℤ_comm y z) ∙ sym (+ℤ_assoc x z y)

-- Two changes one after the other.
compose :
    (x y z : ℤ) (p q ps qs : ℕ)
    → y +ℤ pos p ≡ x +ℤ pos q
    → z +ℤ pos ps ≡ y +ℤ pos qs
    → z +ℤ pos (p + ps) ≡ x +ℤ pos (q + qs)
compose x y z p q ps qs e f =
    ap (λ w. z +ℤ w) (pos_add p ps ∙ +ℤ_comm (pos p) (pos ps))
    ∙ sym (+ℤ_assoc z (pos ps) (pos p))
    ∙ ap (λ w. w +ℤ pos p) f
    ∙ swap_last y (pos qs) (pos p)
    ∙ ap (λ w. w +ℤ pos qs) e
    ∙ +ℤ_assoc x (pos q) (pos qs)
    ∙ ap (λ w. x +ℤ w) (sym (pos_add q qs))

-- What the loop over the neighbours changes.
record Moved {F : Type 0} (a b : ℕ) (us : List Str) (cs cs' : ClpaState F) : Type 0 where
  size : length cs'.edges2shard ≡ length cs.edges2shard
  weights :
      (k : ℕ)
      → get_or cs'.edges2shard k (pos 0) +ℤ pos (weight_at cs.partition_map (pos a) us k)
        ≡ get_or cs.edges2shard k (pos 0) +ℤ pos (weight_at cs.partition_map (pos b) us k)
  crossing :
      cs'.cross_shard_edge_num +ℤ pos (cross_at cs.partition_map (pos a) us)
      ≡ cs.cross_shard_edge_num +ℤ pos (cross_at cs.partition_map (pos b) us)

module _ {F : Type 0} where
  shift_all-Moved :
      (a b : ℕ) (us : List Str) (cs : ClpaState F)
      → a ≢ b
      → a < length cs.edges2shard
      → b < length cs.edges2shard
      → (cs' : ClpaState F) × ((shift_all (pos a) (pos b) us cs ≡ some cs') × Moved a b us cs cs')
  unfolding shift_all
  shift_all-Moved a b [] cs ne ha hb =
      (cs, (refl, record { size = refl; weights = λ k. refl; crossing = refl }))
  shift_all-Moved a b (u ∷ us) cs ne ha hb =
      let w = shard_of cs.partition_map u in
      let (cs1, (e1, s)) = shift-Shifted a b w cs ne ha hb in
      let (cs2, (e2, m)) = shift_all-Moved a b us cs1 ne (rw s.size ha) (rw s.size hb) in
      (
        cs2,
        (
          rw e1 e2,
          record {
            size = m.size ∙ s.size;
            weights = λ k.
                compose (get_or cs.edges2shard k (pos 0)) (get_or cs1.edges2shard k (pos 0))
                  (get_or cs2.edges2shard k (pos 0)) (belongs (pos a) w k) (belongs (pos b) w k)
                  (weight_at cs.partition_map (pos a) us k)
                  (weight_at cs.partition_map (pos b) us k) (s.weights k)
                  (subst
                    (λ p.
                      get_or cs2.edges2shard k (pos 0) +ℤ pos (weight_at p (pos a) us k)
                      ≡ get_or cs1.edges2shard k (pos 0) +ℤ pos (weight_at p (pos b) us k))
                    s.partition (m.weights k));
            crossing =
                compose cs.cross_shard_edge_num cs1.cross_shard_edge_num cs2.cross_shard_edge_num
                  (crosses (pos a) w) (crosses (pos b) w) (cross_at cs.partition_map (pos a) us)
                  (cross_at cs.partition_map (pos b) us) s.crossing
                  (subst
                    (λ p.
                      cs2.cross_shard_edge_num +ℤ pos (cross_at p (pos a) us)
                      ≡ cs1.cross_shard_edge_num +ℤ pos (cross_at p (pos b) us))
                    s.partition m.crossing);
          },
        ),
      )

-- The move of a vertex changes nothing for the edges between the others.
pub shard_of-insert_ne :
    (p : List (Str × ℤ)) (v u : Str) (s : ℤ)
    → str_eq u v ≡ false
    → shard_of (insert p v s) u ≡ shard_of p u
shard_of-insert_ne p v u s h =
    rw (lookup-insert_ne p v u s (λ q. str_eq-false u v h (sym q)), shard_of) refl

weight_at-insert :
    (p : List (Str × ℤ)) (v : Str) (t s : ℤ) (us : List Str) (k : ℕ)
    → count v us ≡ 0
    → weight_at (insert p v t) s us k ≡ weight_at p s us k
weight_at-insert p v t s [] k h = refl
weight_at-insert p v t s (u ∷ us) k h = elim (Bool-cases (str_eq u v)) [
  | inl same ↦ let z : suc (count v us) ≡ 0 = rw same at h in omega (arith, z)
  | inr other ↦
      ap (λ w. belongs s w k + weight_at (insert p v t) s us k) (shard_of-insert_ne p v u t other)
      ∙ ap (λ n. belongs s (shard_of p u) k + n) (weight_at-insert p v t s us k (rw other at h))
]

cross_at-insert :
    (p : List (Str × ℤ)) (v : Str) (t s : ℤ) (us : List Str)
    → count v us ≡ 0
    → cross_at (insert p v t) s us ≡ cross_at p s us
cross_at-insert p v t s [] h = refl
cross_at-insert p v t s (u ∷ us) h = elim (Bool-cases (str_eq u v)) [
  | inl same ↦ let z : suc (count v us) ≡ 0 = rw same at h in omega (arith, z)
  | inr other ↦
      ap (λ w. crosses s w + cross_at (insert p v t) s us) (shard_of-insert_ne p v u t other)
      ∙ ap (λ n. crosses s (shard_of p u) + n) (cross_at-insert p v t s us (rw other at h))
]

module _ {F : Type 0} where
  -- A vertex `v` without an edge to itself, which the partition `p` had in shard `a`, and which has been put
  -- into another shard `b`, both of them shards of the state: ComputeEdges2Shard1 does not panic, and
  -- changes the weight of each shard, and the number of edges that cross shards, by exactly what the
  -- edges of `v` count for it under the new partition less what they counted for it under the old one.
  pub compute_edges2shard1-weight_at :
      (v : Str) (a b : ℕ) (p : List (Str × ℤ)) (cs : ClpaState F)
      → a ≢ b
      → a < length cs.edges2shard
      → b < length cs.edges2shard
      → shard_of p v ≡ pos a
      → cs.partition_map ≡ insert p v (pos b)
      → count v (neighbours cs.net_graph.edge_set v) ≡ 0
      → let us = neighbours cs.net_graph.edge_set v in
        (cs' : ClpaState F) × ((compute_edges2shard1 v (pos a) cs ≡ some cs')
          × (((k : ℕ)
                → get_or cs'.edges2shard k (pos 0) +ℤ pos (weight_at p (shard_of p v) us k)
                  ≡ get_or cs.edges2shard k (pos 0)
                    +ℤ pos (weight_at cs.partition_map (shard_of cs.partition_map v) us k))
              × (cs'.cross_shard_edge_num +ℤ pos (cross_at p (shard_of p v) us)
                  ≡ cs.cross_shard_edge_num
                    +ℤ pos (cross_at cs.partition_map (shard_of cs.partition_map v) us))))
  unfolding compute_edges2shard1
  compute_edges2shard1-weight_at v a b p cs ne ha hb was put loopless =
      let us : List Str = neighbours cs.net_graph.edge_set v in
      let now : shard_of cs.partition_map v ≡ pos b =
        ap (λ t. shard_of t v) put ∙ rw (lookup-insert_self p v (pos b), shard_of) refl in
      let (cs1, (e, m)) = shift_all-Moved a b us cs ne ha hb in
      let (first, f) = some_of_lt cs1.edges2shard 0 (omega (arith, m.size)) in
      (
        record cs1 { min_edges2shard = min_from first cs1.edges2shard },
        (
          rw now (rw e (rw f refl)),
          (
            λ k. rw was (
                rw now (
                  ap (λ n. get_or cs1.edges2shard k (pos 0) +ℤ pos n)
                    (sym (weight_at-insert p v (pos b) (pos a) us k loopless)
                      ∙ ap (λ q. weight_at q (pos a) us k) (sym put))
                  ∙ m.weights k)),
            rw was (
                rw now (
                  ap (λ n. cs1.cross_shard_edge_num +ℤ pos n)
                    (sym (cross_at-insert p v (pos b) (pos a) us loopless)
                      ∙ ap (λ q. cross_at q (pos a) us) (sym put))
                  ∙ m.crossing)),
          ),
        ),
      )
