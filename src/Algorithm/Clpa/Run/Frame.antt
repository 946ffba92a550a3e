-- ===== src/Algorithm/Clpa/Run/Frame.antt =====
-- What the loops of `CLPA_Partition` leave alone, and that they stay within the slices.
use block_preempt.Prelude.{
  ℕ, suc, ◌<◌, ◌≡◌, refl, ap, ◌∙◌, Option, some, List, [], ◌∷◌, length, set, length-set,
  length-replicate, replicate, some_of_lt, Bool-cases, inl, inr, arith,
}
use block_preempt.Prelude.Int.{ℤ, pos, negsuc, ◌+ℤ◌}
use block_preempt.Account.Hex.{Str, str_eq}
use block_preempt.Account.Shards.{eq_ℤ}
use block_preempt.Account.Table.{insert, lookup-insert}
use block_preempt.Algorithm.Graph.{neighbours}
use block_preempt.Algorithm.Clpa.{
  ClpaState, shard_of, add_at, min_from, shift, shift_all, compute_edges2shard1,
}
use block_preempt.Algorithm.Clpa.Run.{
  Edges, count_edge, count_edges, count_all, add_halves, half, sum_ints, int_max,
  compute_edges2shard,
}

abbrev pub Below : ℕ → ℤ → Type 0
Below n z = (k : ℕ) × (z ≡ pos k) × (k < n)

-- The partition has shards among the first `n` only.
abbrev pub InShards : ℕ → List (Str × ℤ) → Type 0
InShards n p = (v : Str) → Below n (shard_of p v)

pub InShards-insert :
    (n : ℕ) (p : List (Str × ℤ)) (v : Str) (s : ℤ)
    → InShards n p
    → Below n s
    → InShards n (insert p v s)
InShards-insert n p v s h b u = elim (Bool-cases (str_eq v u)) [
  | inl e ↦ rw (lookup-insert p v s u, shard_of) (rw e b)
  | inr e ↦ rw (lookup-insert p v s u, shard_of) (rw e (h u))
]

abbrev Sized : ℕ → Option (List ℤ) → Type 0
Sized n o = (es : List ℤ) × (o ≡ some es) × (length es ≡ n)

pub add_at-Sized :
    (n : ℕ) (es : List ℤ) (i d : ℤ) → Below n i → length es ≡ n → Sized n (add_at es i d)
add_at-Sized n es i d (k, e, small) len =
    let (x, found) = some_of_lt es k (omega arith) in
    (set es k (x +ℤ d), rw e (rw found refl), length-set es k (x +ℤ d) ∙ len)

module _ {F : Type 0} where
  -- Only the weights of the shards are written to.
  abbrev pub Framed : ℕ → ClpaState F → ClpaState F → Type 0
  Framed n cs cs' =
      (cs'.net_graph ≡ cs.net_graph)
      × (cs'.partition_map ≡ cs.partition_map)
      × (cs'.vertexs_num_in_shard ≡ cs.vertexs_num_in_shard)
      × (cs'.max_iterations ≡ cs.max_iterations)
      × (length cs'.edges2shard ≡ n)

  abbrev pub Frames : ℕ → ClpaState F → Option (ClpaState F) → Type 0
  Frames n cs o = (cs' : ClpaState F) × (o ≡ some cs') × Framed n cs cs'

  shift-Frames :
      (n : ℕ) (old new u : ℤ) (cs : ClpaState F)
      → Below n old
      → Below n new
      → length cs.edges2shard ≡ n
      → Frames n cs (shift old new u cs)
  unfolding shift
  shift-Frames n old new u cs o w len = elim (Bool-cases (eq_ℤ new u)) [
    | inl e ↦
        let (es, e₁, l₁) = add_at-Sized n cs.edges2shard old (negsuc 0) o len in
        (
          record cs {
            edges2shard = es;
            cross_shard_edge_num = cs.cross_shard_edge_num +ℤ negsuc 0;
          },
          rw e (rw e₁ refl),
          (refl, refl, refl, refl, l₁),
        )
    | inr e ↦
        let (es, e₁, l₁) = add_at-Sized n cs.edges2shard new (pos 1) w len in
        elim (Bool-cases (eq_ℤ u old)) [
          | inl q ↦ (
            record cs { edges2shard = es; cross_shard_edge_num = cs.cross_shard_edge_num +ℤ pos 1 },
            rw e (rw e₁ (rw q refl)),
            (refl, refl, refl, refl, l₁),
          )
          | inr q ↦
              let (es', e₂, l₂) = add_at-Sized n es old (negsuc 0) o l₁ in
              (
                record cs { edges2shard = es' },
                rw e (rw e₁ (rw q (rw e₂ refl))),
                (refl, refl, refl, refl, l₂),
              )
        ]
  ]

  shift_all-Frames :
      (n : ℕ) (old new : ℤ) (us : List Str) (cs : ClpaState F)
      → Below n old
      → Below n new
      → length cs.edges2shard ≡ n
      → Frames n cs (shift_all old new us cs)
  unfolding shift_all
  shift_all-Frames n old new [] cs o w len = (cs, refl, (refl, refl, refl, refl, len))
  shift_all-Frames n old new (u ∷ us) cs o w len =
      let (cs₁, e₁, (g₁, p₁, v₁, m₁, l₁)) =
        shift-Frames n old new (shard_of cs.partition_map u) cs o w len in
      let (cs₂, e₂, (g₂, p₂, v₂, m₂, l₂)) = shift_all-Frames n old new us cs₁ o w l₁ in
      (cs₂, rw e₁ e₂, (g₂ ∙ g₁, p₂ ∙ p₁, v₂ ∙ v₁, m₂ ∙ m₁, l₂))

  pub compute_edges2shard1-Frames :
      (n : ℕ) (v : Str) (old : ℤ) (cs : ClpaState F)
      → Below n old
      → InShards n cs.partition_map
      → length cs.edges2shard ≡ n
      → Frames n cs (compute_edges2shard1 v old cs)
  unfolding compute_edges2shard1
  compute_edges2shard1-Frames n v old cs o shards len =
      let (k, q, small) = o in
      let (cs₁, e₁, (g₁, p₁, v₁, m₁, l₁)) =
        shift_all-Frames n old (shard_of cs.partition_map v) (neighbours cs.net_graph.edge_set v) cs
          o (shards v) len in
      let (first, found) = some_of_lt cs₁.edges2shard 0 (omega (arith, l₁)) in
      (
        record cs₁ { min_edges2shard = min_from first cs₁.edges2shard },
        rw e₁ (rw found refl),
        (g₁, p₁, v₁, m₁, l₁),
      )

abbrev SizedEdges : ℕ → Option Edges → Type 0
SizedEdges n o = (e : Edges) × (o ≡ some e) × (length e.0 ≡ n) × (length e.1 ≡ n)

count_edge-SizedEdges :
    (n : ℕ) (v u : ℤ) (e : Edges)
    → Below n u
    → length e.0 ≡ n
    → length e.1 ≡ n
    → SizedEdges n (count_edge v u e)
unfolding count_edge
count_edge-SizedEdges n v u e b l l' = elim (Bool-cases (eq_ℤ v u)) [
  | inl q ↦
      let (inter, e₁, l₁) = add_at-Sized n e.1 u (pos 1) b l' in
      ((e.0, inter), rw q (rw e₁ refl), l, l₁)
  | inr q ↦
      let (es, e₁, l₁) = add_at-Sized n e.0 u (pos 1) b l in ((es, e.1), rw q (rw e₁ refl), l₁, l')
]

count_edges-SizedEdges :
    (n : ℕ) (p : List (Str × ℤ)) (v : ℤ) (us : List Str) (e : Edges)
    → InShards n p
    → length e.0 ≡ n
    → length e.1 ≡ n
    → SizedEdges n (count_edges p v us e)
unfolding count_edges
count_edges-SizedEdges n p v [] e h l l' = (e, refl, l, l')
count_edges-SizedEdges n p v (u ∷ us) e h l l' =
    let (e₁, q₁, l₁, m₁) = count_edge-SizedEdges n v (shard_of p u) e (h u) l l' in
    let (e₂, q₂, l₂, m₂) = count_edges-SizedEdges n p v us e₁ h l₁ m₁ in (e₂, rw q₁ q₂, l₂, m₂)

count_all-SizedEdges :
    (n : ℕ) (p : List (Str × ℤ)) (rest : List (Str × List Str)) (e : Edges)
    → InShards n p
    → length e.0 ≡ n
    → length e.1 ≡ n
    → SizedEdges n (count_all p rest e)
unfolding count_all
count_all-SizedEdges n p [] e h l l' = (e, refl, l, l')
count_all-SizedEdges n p ((v, lst) ∷ rest) e h l l' =
    let (e₁, q₁, l₁, m₁) = count_edges-SizedEdges n p (shard_of p v) lst e h l l' in
    let (e₂, q₂, l₂, m₂) = count_all-SizedEdges n p rest e₁ h l₁ m₁ in (e₂, rw q₁ q₂, l₂, m₂)

length-add_halves : (es inter : List ℤ) → length (add_halves es inter) ≡ length es
length-add_halves [] inter = refl
length-add_halves (e ∷ es) [] = refl
length-add_halves (e ∷ es) (i ∷ inter) = ap suc (length-add_halves es inter)

pub compute_edges2shard-Frames :
    {F : Type 0} (cs : ClpaState F)
    → InShards cs.shard_num cs.partition_map
    → Frames cs.shard_num cs (compute_edges2shard cs)
unfolding compute_edges2shard
compute_edges2shard-Frames cs h =
    let n = cs.shard_num in
    let zeros = replicate n (pos 0) in
    let (e, q, l, l') =
      count_all-SizedEdges n cs.partition_map cs.net_graph.edge_set (zeros, zeros) h
        (length-replicate n (pos 0)) (length-replicate n (pos 0)) in
    let es = add_halves e.0 e.1 in
    (
      record cs {
        edges2shard = es;
        cross_shard_edge_num = half (sum_ints e.0);
        min_edges2shard = min_from (pos int_max) es;
      },
      rw q refl,
      (refl, refl, refl, refl, length-add_halves e.0 e.1 ∙ l),
    )
