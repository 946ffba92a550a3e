-- ===== src/Algorithm/Graph.antt =====
-- algorithm/graph.go: the graph of the accounts, with a vertex as its address. A map that is nil reads
-- as an empty one.
pub mod Vertices
pub mod Edges
use block_preempt.Prelude.{
  ℕ, suc, ◌+◌, Bool, Option, none, some, List, [], ◌∷◌, ◌++◌, length, get_elem?, set, ◌==◌,
  if◌then◌else◌, ◌>>=◌,
}
use block_preempt.Account.Hex.{Str, str_eq}
use block_preempt.Account.Table.{lookup, insert}

pub record Graph : Type 0 where
  pub vertex_set : List (Str × ℕ)
  pub vertexs : List Str
  pub edge_set : List (Str × List Str)
  pub edge_weight : List (ℕ → ℕ)

abbrev pub add_new : Str → Graph → Option ℕ → Graph
add_new v g none = record g {
  vertex_set = insert g.vertex_set v (length g.vertexs);
  vertexs = g.vertexs ++ v ∷ [];
  edge_weight = g.edge_weight ++ (λ j. 0) ∷ [];
}
add_new v g (some i) = g

unfoldable pub add_vertex : Str → Graph → Graph
add_vertex v g = add_new v g (lookup g.vertex_set v)

-- `g.VertexSet[v]` and `g.EdgeSet[v]`, with the zero values for a missing key.
abbrev pub index_of : List (Str × ℕ) → Str → ℕ
index_of t v = elim (lookup t v) [ none ↦ 0 | some i ↦ i ]

abbrev pub neighbours : List (Str × List Str) → Str → List Str
neighbours t v = elim (lookup t v) [ none ↦ [] | some vs ↦ vs ]

-- `g.EdgeWeight[i][j]++`, which panics where there is no row `i`.
unfoldable pub bump : ℕ → ℕ → List (ℕ → ℕ) → Option (List (ℕ → ℕ))
bump i j weights =
    get_elem? weights i >>= λ row. some (set weights i (λ k. if k == j then suc (row k) else row k))

-- One direction of an edge: `v` is noted as a neighbour of `u`.
unfoldable pub add_arc : Str → Str → Graph → Option Graph
unfolding bump
add_arc u v g =
    bump (index_of g.vertex_set u) (index_of g.vertex_set v) g.edge_weight >>= λ weights.
    some (record g {
      edge_set = insert g.edge_set u (neighbours g.edge_set u ++ v ∷ []);
      edge_weight = weights;
    })

-- The edge goes both ways where `uni` is 0.
unfoldable pub add_edge : Str → Str → ℕ → Graph → Option Graph
unfolding add_vertex add_arc
add_edge u v uni g =
    (let h = add_vertex v (add_vertex u g) in
      (if uni == 0 then add_arc u v h else some h) >>= λ h'. add_arc v u h')

-- `CopyGraph`: the neighbours of the vertices are copied, the vertices in their order and the weights are
-- not. `made` says whether `src.EdgeSet` is not nil, which a list does not tell from an empty map.
abbrev pub copy_edges : List (Str × List Str) → List (Str × ℕ) → List (Str × List Str)
copy_edges edges [] = []
copy_edges edges ((v, i) ∷ vs) = (v, neighbours edges v) ∷ copy_edges edges vs

unfoldable pub copy_graph : Bool → Graph → Graph → Graph
copy_graph made src dst = record dst {
  vertex_set = src.vertex_set;
  edge_set = if made then copy_edges src.edge_set src.vertex_set else dst.edge_set;
}
