-- ===== src/Algorithm/Clpa/Run/Examples.antt =====
-- Three accounts in two shards, of which one pays one of each; a score is a number.
use block_preempt.Prelude.{ℕ, zero, suc, ◌*◌, ◌-◌, ◌/◌, ◌≡◌, refl, some, [], ◌∷◌, ltb, arith}
use block_preempt.Prelude.Int.{ℤ, pos, negsuc}
use block_preempt.Account.Hex.{Str}
use block_preempt.Algorithm.Graph.{Graph}
use block_preempt.Algorithm.Clpa.{ClpaState}
use block_preempt.Algorithm.Clpa.Run.{Floats, Moving, clpa_partition}
use block_preempt.Algorithm.Clpa.Run.Frame.{InShards, InShards-insert}
use block_preempt.Algorithm.Clpa.Run.Tally.{IsTallied}
use block_preempt.Algorithm.Clpa.Run.Total.{Keeps, clpa_partition-ends}

abbrev whole : ℤ → ℕ
whole (pos n) = n
whole (negsuc n) = 0

abbrev numbers : Floats
numbers = record {
  F = ℕ;
  of_int = whole;
  times = λ a b. a * b;
  over = λ a b. a / b;
  minus = λ a b. a - b;
  less = ltb;
}

abbrev a : Str
a = 49 ∷ []

abbrev b : Str
b = 50 ∷ []

abbrev d : Str
d = 51 ∷ []

abbrev graph : Graph
graph = record {
  vertex_set = (a, 0) ∷ (b, 1) ∷ (d, 2) ∷ [];
  vertexs = a ∷ b ∷ d ∷ [];
  edge_set = (a, b ∷ d ∷ []) ∷ (b, a ∷ []) ∷ (d, a ∷ []) ∷ [];
  edge_weight = [];
}

abbrev state : ClpaState ℕ
state = record {
  net_graph = graph;
  partition_map = (a, pos 0) ∷ (b, pos 0) ∷ (d, pos 1) ∷ [];
  edges2shard = [];
  vertexs_num_in_shard = pos 2 ∷ pos 1 ∷ [];
  weight_penalty = 0;
  min_edges2shard = pos 0;
  max_iterations = 3;
  cross_shard_edge_num = pos 0;
  shard_num = 2;
}

state-InShards : InShards 2 state.partition_map
state-InShards =
    InShards-insert 2 ((a, pos 0) ∷ (b, pos 0) ∷ []) d (pos 1)
      (InShards-insert 2 ((a, pos 0) ∷ []) b (pos 0)
        (InShards-insert 2 [] a (pos 0) (λ v. (0, refl, omega arith)) (0, refl, omega arith))
        (0, refl, omega arith))
      (1, refl, omega arith)

state-IsTallied : IsTallied state.partition_map graph.vertexs state.vertexs_num_in_shard
state-IsTallied zero h = refl
state-IsTallied (suc zero) h = refl
state-IsTallied (suc (suc k)) h = absurd (omega arith)

clpa_partition-ends_example :
    (m : Moving numbers) × (clpa_partition numbers state ≡ some m)
    × InShards 2 m.cs.partition_map
    × IsTallied m.cs.partition_map graph.vertexs m.cs.vertexs_num_in_shard
    × Keeps 2 graph.vertexs state.partition_map m.cs.partition_map
clpa_partition-ends_example =
    clpa_partition-ends numbers state state-InShards refl state-IsTallied (refl, (refl, (refl, tt)))
