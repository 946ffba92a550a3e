-- ===== src/Algorithm/Clpa/Run.antt =====
-- algorithm/partition_CLPA.go: `ComputeEdges2Shard`, `getShard_score` and `CLPA_Partition`. The float64
-- operations are parameters. A Go map is the list of its entries, and is ranged over in that order.
pub mod Frame
pub mod Tally
pub mod Total
pub mod Examples
use block_preempt.Prelude.{
  ℕ, zero, suc, ◌+◌, ◌-◌, ◌/◌, ◌^◌, Bool, true, false, not, Option, none, some, List, [], ◌∷◌, ◌++◌,
  length, replicate, leb, if◌then◌else◌, ◌>>=◌,
}
use block_preempt.Prelude.Int.{ℤ, pos, negsuc, ◌+ℤ◌, ltb_ℤ}
use block_preempt.Account.Hex.{Str}
use block_preempt.Account.Shards.{eq_ℤ, neg, assign}
use block_preempt.Account.Table.{lookup, insert, has}
use block_preempt.Algorithm.Graph.{Graph, neighbours}
use block_preempt.Algorithm.Clpa.{
  ClpaState, shard_of, at_index, add_at, min_from, compute_edges2shard1,
}

-- float64, with -9999.0 and the operations that the score needs.
pub record Floats : Type 1 where
  pub F : Type 0
  pub of_int : ℤ → F
  pub times : F → F → F
  pub over : F → F → F
  pub minus : F → F → F
  pub less : F → F → Bool

-- `n / 2`, which truncates toward zero.
abbrev pub half : ℤ → ℤ
half (pos n) = pos (n / 2)
half (negsuc n) = neg (suc n / 2)

abbrev pub sum_ints : List ℤ → ℤ
sum_ints [] = pos 0
sum_ints (x ∷ xs) = x +ℤ sum_ints xs

abbrev pub add_halves : List ℤ → List ℤ → List ℤ
add_halves [] inter = []
add_halves (e ∷ es) [] = e ∷ es
add_halves (e ∷ es) (i ∷ inter) = (e +ℤ half i) ∷ add_halves es inter

-- `Edges2Shard` and `interEdge`.
abbrev pub Edges : Type 0
Edges = List ℤ × List ℤ

-- An edge into `u_shard` from a vertex in `v_shard`.
unfoldable pub count_edge : ℤ → ℤ → Edges → Option Edges
count_edge v_shard u_shard e =
    if not (eq_ℤ v_shard u_shard)
    then (add_at e.0 u_shard (pos 1) >>= λ es. some (es, e.1))
    else add_at e.1 u_shard (pos 1) >>= λ inter. some (e.0, inter)

unfoldable pub count_edges : List (Str × ℤ) → ℤ → List Str → Edges → Option Edges
unfolding count_edge
count_edges p v_shard [] e = some e
count_edges p v_shard (u ∷ us) e =
    count_edge v_shard (shard_of p u) e >>= λ e'. count_edges p v_shard us e'

unfoldable pub count_all : List (Str × ℤ) → List (Str × List Str) → Edges → Option Edges
unfolding count_edges
count_all p [] e = some e
count_all p ((v, lst) ∷ rest) e = count_edges p (shard_of p v) lst e >>= λ e'. count_all p rest e'

abbrev pub int_max : ℕ
int_max = 2 ^ 31 - 1

module _ {F : Type 0} where
  unfoldable pub compute_edges2shard : ClpaState F → Option (ClpaState F)
  unfolding count_all
  compute_edges2shard cs =
      count_all cs.partition_map cs.net_graph.edge_set
        (replicate cs.shard_num (pos 0), replicate cs.shard_num (pos 0))
      >>= λ e.
          (let es = add_halves e.0 e.1 in
            some (record cs {
              edges2shard = es;
              cross_shard_edge_num = half (sum_ints e.0);
              min_edges2shard = min_from (pos int_max) es;
            }))

abbrev pub edges_to : List (Str × ℤ) → ℤ → List Str → ℕ
edges_to p s [] = 0
edges_to p s (u ∷ us) =
    let rest = edges_to p s us in if eq_ℤ (shard_of p u) s then suc rest else rest

-- `uint64(s)`
abbrev pub to_uint64 : ℤ → ℕ
to_uint64 (pos n) = n
to_uint64 (negsuc n) = 2 ^ 64 - suc n

module _ (fl : Floats) where
  unfoldable pub get_shard_score : Str → ℤ → ClpaState fl.F → Option fl.F
  get_shard_score v u_shard cs =
      let us = neighbours cs.net_graph.edge_set v in
      let to_shard = fl.of_int (pos (edges_to cs.partition_map u_shard us)) in
      at_index cs.edges2shard u_shard >>= λ e. some (
        fl.times (fl.over to_shard (fl.of_int (pos (length us)))) (
          fl.minus (fl.of_int (pos 1))
            (fl.over (fl.times cs.weight_penalty (fl.of_int e)) (fl.of_int cs.min_edges2shard))))

  -- Which shards have a score, the best score and its shard.
  pub record Best : Type 0 where
    pub computed : ℤ → Bool
    pub max_score : fl.F
    pub max_shard : ℤ

  abbrev pub consider : ℤ → fl.F → Best → Best
  consider s score b = record {
    computed = λ k. if eq_ℤ s k then true else b.computed k;
    max_score = if fl.less b.max_score score then score else b.max_score;
    max_shard = if fl.less b.max_score score then s else b.max_shard;
  }

  unfoldable pub best_of : Str → ClpaState fl.F → List Str → Best → Option Best
  unfolding get_shard_score
  best_of v cs [] b = some b
  best_of v cs (u ∷ us) b =
      let s = shard_of cs.partition_map u in
      (if b.computed s
        then some b
        else get_shard_score v s cs >>= λ score. some (consider s score b))
      >>= λ b'. best_of v cs us b'

  -- The state, `addrs`, `res` and `updateTreshold`.
  pub record Moving : Type 0 where
    pub cs : ClpaState fl.F
    pub addrs : List Str
    pub res : List (Str × ℕ)
    pub update_treshold : Str → ℕ

  -- The vertex `v` goes from shard `old` to shard `new`.
  unfoldable pub move : Str → ℤ → ℤ → Moving → Option Moving
  move v old new m = add_at m.cs.vertexs_num_in_shard old (negsuc 0) >>= λ less.
      add_at less new (pos 1) >>= λ nums.
      compute_edges2shard1 v old (record m.cs {
        partition_map = insert m.cs.partition_map v new;
        vertexs_num_in_shard = nums;
      })
      >>= λ cs. some (record {
        cs = cs;
        addrs = if has m.res v then m.addrs else m.addrs ++ v ∷ [];
        res = insert m.res v (to_uint64 new);
        update_treshold = assign m.update_treshold v (suc (m.update_treshold v));
      })

  -- The body of the loop over the vertices.
  unfoldable pub visit : Str → Moving → Option Moving
  unfolding best_of move
  visit v m =
      let now = shard_of m.cs.partition_map v in
      let start : Best = record {
        computed = λ k. false;
        max_score = fl.of_int (negsuc 9998);
        max_shard = now;
      } in
      if leb 1000 (m.update_treshold v)
      then some m
      else best_of v m.cs (neighbours m.cs.net_graph.edge_set v) start >>= λ b.
          (if eq_ℤ now b.max_shard
            then some m
            else at_index m.cs.vertexs_num_in_shard now >>= λ k.
                (if ltb_ℤ (pos 1) k then move v now b.max_shard m else some m))

  unfoldable pub visit_all : List Str → Moving → Option Moving
  unfolding visit
  visit_all [] m = some m
  visit_all (v ∷ vs) m = visit v m >>= λ m'. visit_all vs m'

  unfoldable pub iterate : ℕ → Moving → Option Moving
  unfolding visit_all
  iterate zero m = some m
  iterate (suc k) m = visit_all m.cs.net_graph.vertexs m >>= λ m'. iterate k m'

  unfoldable pub clpa_partition : ClpaState fl.F → Option Moving
  unfolding compute_edges2shard iterate
  clpa_partition cs = compute_edges2shard cs >>= λ cs'.
      iterate cs'.max_iterations
        (record { cs = cs'; addrs = []; res = []; update_treshold = λ v. 0 })
