-- ===== src/Algorithm/Examples.antt =====
-- A graph of no account yet, and an account that moves away from its payee.
use block_preempt.Prelude.{ℕ, ◌+◌, ◌≡◌, refl, some, List, [], ◌∷◌, get_or, arith}
use block_preempt.Prelude.Int.{ℤ, pos, ◌+ℤ◌}
use block_preempt.Account.Hex.{Str}
use block_preempt.Algorithm.Graph.{Graph, neighbours, add_edge}
use block_preempt.Algorithm.Graph.Vertices.{count, pair, IsGraph}
use block_preempt.Algorithm.Graph.Edges.{add_edge-IsGraph}
use block_preempt.Algorithm.Clpa.{ClpaState, compute_edges2shard1}
use block_preempt.Algorithm.Clpa.Moves.{weight_at, cross_at}
use block_preempt.Algorithm.Clpa.Weights.{compute_edges2shard1-weight_at}

abbrev empty : Graph
empty = record { vertex_set = []; vertexs = []; edge_set = []; edge_weight = [] }

empty-IsGraph : IsGraph empty
empty-IsGraph = record { sizes = refl; indexed = λ v i e. cc; symmetric = λ u v. refl }

abbrev payer : Str
payer = 49 ∷ []

abbrev payee : Str
payee = 50 ∷ []

add_edge-IsGraph_example :
    (g' : Graph) × ((add_edge payer payee 0 empty ≡ some g')
      × (IsGraph g'
          × ((x y : Str)
              → count y (neighbours g'.edge_set x)
                ≡ count y (neighbours empty.edge_set x)
                  + pair payer payee x y
                  + pair payee payer x y)))
add_edge-IsGraph_example = add_edge-IsGraph payer payee empty empty-IsGraph

abbrev before : List (Str × ℤ)
before = (payer, pos 0) ∷ (payee, pos 0) ∷ []

abbrev moved : ClpaState ℕ
moved = record {
  net_graph = record empty { edge_set = (payer, payee ∷ []) ∷ (payee, payer ∷ []) ∷ [] };
  partition_map = (payer, pos 1) ∷ (payee, pos 0) ∷ [];
  edges2shard = pos 1 ∷ pos 0 ∷ [];
  vertexs_num_in_shard = pos 1 ∷ pos 1 ∷ [];
  weight_penalty = 5;
  min_edges2shard = pos 0;
  max_iterations = 100;
  cross_shard_edge_num = pos 0;
  shard_num = 2;
}

compute_edges2shard1-weight_at_example :
    (cs' : ClpaState ℕ) × ((compute_edges2shard1 payer (pos 0) moved ≡ some cs')
      × (((k : ℕ)
            → get_or cs'.edges2shard k (pos 0) +ℤ pos (weight_at before (pos 0) (payee ∷ []) k)
              ≡ get_or moved.edges2shard k (pos 0)
                +ℤ pos (weight_at moved.partition_map (pos 1) (payee ∷ []) k))
          × (cs'.cross_shard_edge_num +ℤ pos (cross_at before (pos 0) (payee ∷ []))
              ≡ moved.cross_shard_edge_num
                +ℤ pos (cross_at moved.partition_map (pos 1) (payee ∷ [])))))
compute_edges2shard1-weight_at_example =
    compute_edges2shard1-weight_at payer 0 1 before moved (λ e. omega (arith, e)) (omega arith)
      (omega arith) refl refl refl
