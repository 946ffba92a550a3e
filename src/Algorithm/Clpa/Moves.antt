-- ===== src/Algorithm/Clpa/Moves.antt =====
-- The incremental update of the weights of the shards, against their definition.
use block_preempt.Prelude.{
  some_of_lt, ℕ, zero, suc, ◌+◌, ◌<◌, ◌≡◌, refl, sym, ap, ◌∙◌, ◌≢◌, true, false, ◌||◌, some, List,
  [], ◌∷◌, length, get_elem?, get_or, set, length-set, ◌==◌, if◌then◌else◌, some_inj, Bool-cases,
  inl, inr, arith,
}
use block_preempt.Prelude.Int.{ℤ, pos, negsuc, ◌+ℤ◌}
use block_preempt.Account.Hex.{Str}
use block_preempt.Account.Shards.{eq_ℤ}
use block_preempt.Algorithm.Clpa.{ClpaState, shard_of, add_at, shift}

-- An edge between the shards `s` and `u` belongs to shard `k` if one of them is `k`.
abbrev pub belongs : ℤ → ℤ → ℕ → ℕ
belongs s u k = if eq_ℤ s (pos k) || eq_ℤ u (pos k) then 1 else 0

-- It crosses shards if they differ.
abbrev pub crosses : ℤ → ℤ → ℕ
crosses s u = if eq_ℤ s u then 0 else 1

-- Of the edges from a vertex in shard `s` to `us`: those that belong to shard `k`, and those that cross.
abbrev pub weight_at : List (Str × ℤ) → ℤ → List Str → ℕ → ℕ
weight_at p s [] k = 0
weight_at p s (u ∷ us) k = belongs s (shard_of p u) k + weight_at p s us k

abbrev pub cross_at : List (Str × ℤ) → ℤ → List Str → ℕ
cross_at p s [] = 0
cross_at p s (u ∷ us) = crosses s (shard_of p u) + cross_at p s us

+ℤ_zero : (x : ℤ) → x +ℤ pos 0 ≡ x
unfolding ◌+ℤ◌
+ℤ_zero x = ground arith

==_suc : (i k : ℕ) → (i == k) ≡ (suc i == suc k)
==_suc i k = ground arith

==_zero : (k : ℕ) → (0 == suc k) ≡ false
==_zero k = ground arith

==_zero' : (k : ℕ) → (suc k == 0) ≡ false
==_zero' k = ground arith

-- The three cases of a neighbour: in the new shard, in the old one, in a third.
weights_new :
    (a b : ℕ) (us : ℤ) (k : ℕ) (x : ℤ)
    → a ≢ b
    → eq_ℤ (pos b) us ≡ true
    → x +ℤ (if a == k then negsuc 0 else pos 0) +ℤ pos (belongs (pos a) us k)
      ≡ x +ℤ pos (belongs (pos b) us k)
unfolding ◌+ℤ◌
weights_new a b (pos s) k x ne e = ground (arith, ne, e)
weights_new a b (negsuc s) k x ne e = cc

weights_old :
    (a b : ℕ) (us : ℤ) (k : ℕ) (x : ℤ)
    → a ≢ b
    → eq_ℤ us (pos a) ≡ true
    → x +ℤ (if b == k then pos 1 else pos 0) +ℤ pos (belongs (pos a) us k)
      ≡ x +ℤ pos (belongs (pos b) us k)
unfolding ◌+ℤ◌
weights_old a b (pos s) k x ne e = ground (arith, ne, e)
weights_old a b (negsuc s) k x ne e = cc

weights_third :
    (a b : ℕ) (us : ℤ) (k : ℕ) (x : ℤ)
    → a ≢ b
    → eq_ℤ (pos b) us ≡ false
    → eq_ℤ us (pos a) ≡ false
    → x
        +ℤ (if b == k then pos 1 else pos 0)
        +ℤ (if a == k then negsuc 0 else pos 0)
        +ℤ pos (belongs (pos a) us k)
      ≡ x +ℤ pos (belongs (pos b) us k)
unfolding ◌+ℤ◌
weights_third a b (pos s) k x ne e f = ground (arith, ne, e, f)
weights_third a b (negsuc s) k x ne e f = ground (arith, ne)

cross_new :
    (a b : ℕ) (us : ℤ) (x : ℤ)
    → a ≢ b
    → eq_ℤ (pos b) us ≡ true
    → x +ℤ negsuc 0 +ℤ pos (crosses (pos a) us) ≡ x +ℤ pos (crosses (pos b) us)
unfolding ◌+ℤ◌
cross_new a b (pos s) x ne e = ground (arith, ne, e)
cross_new a b (negsuc s) x ne e = cc

cross_old :
    (a b : ℕ) (us : ℤ) (x : ℤ)
    → a ≢ b
    → eq_ℤ us (pos a) ≡ true
    → x +ℤ pos 1 +ℤ pos (crosses (pos a) us) ≡ x +ℤ pos (crosses (pos b) us)
unfolding ◌+ℤ◌
cross_old a b (pos s) x ne e = ground (arith, ne, e)
cross_old a b (negsuc s) x ne e = cc

cross_third :
    (a b : ℕ) (us : ℤ) (x : ℤ)
    → eq_ℤ (pos b) us ≡ false
    → eq_ℤ us (pos a) ≡ false
    → x +ℤ pos (crosses (pos a) us) ≡ x +ℤ pos (crosses (pos b) us)
cross_third a b (pos s) x e f = ground (arith, e, f)
cross_third a b (negsuc s) x e f = refl

abbrev pub Added : List ℤ → ℕ → ℤ → List ℤ → Type 0
Added es i d es' =
    (add_at es (pos i) d ≡ some es')
    × ((length es' ≡ length es)
        × ((k : ℕ) → get_or es' k (pos 0) ≡ get_or es k (pos 0) +ℤ (if i == k then d else pos 0)))

set-value :
    (es : List ℤ) (i k : ℕ) (d y : ℤ)
    → get_elem? es i ≡ some y
    → get_or (set es i (y +ℤ d)) k (pos 0) ≡ get_or es k (pos 0) +ℤ (if i == k then d else pos 0)
set-value [] i k d y e = cc
set-value (x ∷ es) zero zero d y e = rw (some_inj e) refl
set-value (x ∷ es) zero (suc k) d y e = rw (==_zero k) (sym (+ℤ_zero (get_or es k (pos 0))))
set-value (x ∷ es) (suc i) zero d y e = rw (==_zero' i) (sym (+ℤ_zero x))
set-value (x ∷ es) (suc i) (suc k) d y e =
    set-value es i k d y e ∙ ap (λ b. get_or es k (pos 0) +ℤ (if b then d else pos 0)) (==_suc i k)

pub add_at-value : (es : List ℤ) (i : ℕ) (d : ℤ) → i < length es → (es' : List ℤ) × Added es i d es'
add_at-value es i d h =
    let (y, e) = some_of_lt es i h in
    (set es i (y +ℤ d), (rw e refl, (length-set es i (y +ℤ d), λ k. set-value es i k d y e)))

-- What one neighbour changes.
pub record Shifted {F : Type 0} (a b : ℕ) (us : ℤ) (cs cs' : ClpaState F) : Type 0 where
  pub graph : cs'.net_graph ≡ cs.net_graph
  pub partition : cs'.partition_map ≡ cs.partition_map
  pub size : length cs'.edges2shard ≡ length cs.edges2shard
  pub weights :
      (k : ℕ)
      → get_or cs'.edges2shard k (pos 0) +ℤ pos (belongs (pos a) us k)
        ≡ get_or cs.edges2shard k (pos 0) +ℤ pos (belongs (pos b) us k)
  pub crossing :
      cs'.cross_shard_edge_num +ℤ pos (crosses (pos a) us)
      ≡ cs.cross_shard_edge_num +ℤ pos (crosses (pos b) us)

module _ {F : Type 0} where
  pub shift-Shifted :
      (a b : ℕ) (us : ℤ) (cs : ClpaState F)
      → a ≢ b
      → a < length cs.edges2shard
      → b < length cs.edges2shard
      → (cs' : ClpaState F) × ((shift (pos a) (pos b) us cs ≡ some cs') × Shifted a b us cs cs')
  unfolding shift
  shift-Shifted a b us cs ne ha hb = elim (Bool-cases (eq_ℤ (pos b) us)) [
    | inl same ↦
        let (es, (e, (size, value))) = add_at-value cs.edges2shard a (negsuc 0) ha in
        (
          record cs {
            edges2shard = es;
            cross_shard_edge_num = cs.cross_shard_edge_num +ℤ negsuc 0;
          },
          (
            rw same (rw e refl),
            record {
              graph = refl;
              partition = refl;
              size = size;
              weights = λ k.
                  rw (value k) (weights_new a b us k (get_or cs.edges2shard k (pos 0)) ne same);
              crossing = cross_new a b us cs.cross_shard_edge_num ne same;
            },
          ),
        )
    | inr other ↦
        let (es, (e, (size, value))) = add_at-value cs.edges2shard b (pos 1) hb in
        elim (Bool-cases (eq_ℤ us (pos a))) [
          | inl back ↦ (
            record cs { edges2shard = es; cross_shard_edge_num = cs.cross_shard_edge_num +ℤ pos 1 },
            (
              rw other (rw e (rw back refl)),
              record {
                graph = refl;
                partition = refl;
                size = size;
                weights = λ k.
                    rw (value k) (weights_old a b us k (get_or cs.edges2shard k (pos 0)) ne back);
                crossing = cross_old a b us cs.cross_shard_edge_num ne back;
              },
            ),
          )
          | inr third ↦
              let (es', (e', (size', value'))) = add_at-value es a (negsuc 0) (rw size ha) in
              (
                record cs { edges2shard = es' },
                (
                  rw other (rw e (rw third (rw e' refl))),
                  record {
                    graph = refl;
                    partition = refl;
                    size = size' ∙ size;
                    weights = λ k. rw (value' k) (
                        rw (value k) (
                          weights_third a b us k (get_or cs.edges2shard k (pos 0)) ne other third));
                    crossing = cross_third a b us cs.cross_shard_edge_num other third;
                  },
                ),
              )
        ]
  ]
