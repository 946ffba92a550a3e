-- ===== src/Algorithm/Graph/Edges.antt =====
-- What an edge adds to a graph.
use block_preempt.Prelude.{
  ℕ, suc, ◌+◌, ◌<◌, ◌≡◌, refl, sym, ap, ◌∙◌, some, List, [], ◌∷◌, ◌++◌, length, get_elem?, set,
  length-set, lt_of_get_elem?, ◌==◌, if◌then◌else◌, ◌>>=◌, some_of_lt, Bool-cases, inl, inr, arith,
}
use block_preempt.Account.Hex.{str_eq-false, Str, str_eq, str_eq_sound}
use block_preempt.Account.Table.{lookup, insert, lookup-insert_self, lookup-insert_ne}
use block_preempt.Algorithm.Graph.{Graph, add_vertex, index_of, neighbours, add_arc, add_edge}
use block_preempt.Algorithm.Graph.Vertices.{
  count, IsGraph, pair, count-snoc, add_vertex-IsGraph, lookup-add_vertex_self, lookup-add_vertex,
  edges-add_vertex,
}

count-insert :
    (t : List (Str × List Str)) (u v x y : Str)
    → count y (neighbours (insert t u (neighbours t u ++ v ∷ [])) x)
      ≡ count y (neighbours t x) + pair u v x y
count-insert t u v x y = elim (Bool-cases (str_eq u x)) [
  | inl same ↦ rw same (
      rw (str_eq_sound u x same) (
        rw (lookup-insert_self t x (neighbours t x ++ v ∷ []), neighbours)
          (ground (arith, count-snoc y v (neighbours t x)))))
  | inr other ↦ rw other (
      rw (lookup-insert_ne t u x (neighbours t u ++ v ∷ []) (str_eq-false u x other), neighbours)
        (omega arith))
]

-- What `add_arc` leaves.
record Arc (u v : Str) (g g' : Graph) : Type 0 where
  vertex_set : g'.vertex_set ≡ g.vertex_set
  vertexs : g'.vertexs ≡ g.vertexs
  edge_set : g'.edge_set ≡ insert g.edge_set u (neighbours g.edge_set u ++ v ∷ [])
  weights : length g'.edge_weight ≡ length g.edge_weight

-- An arc from a vertex of the graph does not panic.
add_arc-Arc :
    (u v : Str) (g : Graph) (i : ℕ)
    → lookup g.vertex_set u ≡ some i
    → i < length g.edge_weight
    → (g' : Graph) × ((add_arc u v g ≡ some g') × Arc u v g g')
unfolding add_arc
add_arc-Arc u v g i e h =
    let j = index_of g.vertex_set v in
    let (row, r) = some_of_lt g.edge_weight i h in
    let weights = set g.edge_weight i (λ k. if k == j then suc (row k) else row k) in
    (
      record g {
        edge_set = insert g.edge_set u (neighbours g.edge_set u ++ v ∷ []);
        edge_weight = weights;
      },
      (
        rw (e, index_of) (rw r refl),
        record {
          vertex_set = refl;
          vertexs = refl;
          edge_set = refl;
          weights = length-set g.edge_weight i (λ k. if k == j then suc (row k) else row k);
        },
      ),
    )

in_range :
    (g : Graph) (v : Str) (i : ℕ)
    → IsGraph g
    → lookup g.vertex_set v ≡ some i
    → i < length g.edge_weight
in_range g v i h e = omega (arith, h.sizes, lt_of_get_elem? g.vertexs i v (h.indexed v i e))

-- What the two arcs of an edge leave.
record Edge (u v : Str) (g g' : Graph) : Type 0 where
  vertex_set : g'.vertex_set ≡ g.vertex_set
  vertexs : g'.vertexs ≡ g.vertexs
  weights : length g'.edge_weight ≡ length g.edge_weight
  counts :
      (x y : Str)
      → count y (neighbours g'.edge_set x)
        ≡ count y (neighbours g.edge_set x) + pair u v x y + pair v u x y

arcs-Edge :
    (u v : Str) (g : Graph) (i j : ℕ)
    → IsGraph g
    → lookup g.vertex_set u ≡ some i
    → lookup g.vertex_set v ≡ some j
    → (g' : Graph) × (((add_arc u v g >>= λ h. add_arc v u h) ≡ some g') × Edge u v g g')
arcs-Edge u v g i j h eu ev =
    let (g1, (e1, a1)) = add_arc-Arc u v g i eu (in_range g u i h eu) in
    let (g2, (e2, a2)) =
      add_arc-Arc v u g1 j (ap (λ t. lookup t v) a1.vertex_set ∙ ev)
        (rw a1.weights (in_range g v j h ev)) in
    (
      g2,
      (
        rw e1 e2,
        record {
          vertex_set = a2.vertex_set ∙ a1.vertex_set;
          vertexs = a2.vertexs ∙ a1.vertexs;
          weights = a2.weights ∙ a1.weights;
          counts = λ x y.
              ap (λ t. count y (neighbours t x)) a2.edge_set
              ∙ count-insert g1.edge_set v u x y
              ∙ ap (λ t. count y (neighbours t x) + pair v u x y) a1.edge_set
              ∙ ap (λ n. n + pair v u x y) (count-insert g.edge_set u v x y);
        },
      ),
    )

Edge-IsGraph : (u v : Str) (g g' : Graph) → IsGraph g → Edge u v g g' → IsGraph g'
Edge-IsGraph u v g g' h e = record {
  sizes = e.weights ∙ h.sizes ∙ ap (λ l. length l) (sym e.vertexs);
  indexed = λ w i q.
      ap (λ l. get_elem? l i) e.vertexs
      ∙ h.indexed w i (ap (λ t. lookup t w) (sym e.vertex_set) ∙ q);
  symmetric = λ x y. e.counts x y ∙ ground (arith, h.symmetric x y) ∙ sym (e.counts y x);
}

-- On a graph whose indices name its vertices, with weights for every vertex and neighbours that go both
-- ways, adding an undirected edge between any two accounts, new or not, the same or not, does not
-- panic, leaves such a graph, and makes each of the two a neighbour of the other once more,
-- and nobody else.
pub add_edge-IsGraph :
    (u v : Str) (g : Graph)
    → IsGraph g
    → (g' : Graph) × ((add_edge u v 0 g ≡ some g')
        × (IsGraph g'
            × ((x y : Str)
                → count y (neighbours g'.edge_set x)
                  ≡ count y (neighbours g.edge_set x) + pair u v x y + pair v u x y)))
unfolding add_edge
add_edge-IsGraph u v g h =
    let g1 : Graph = add_vertex u g in
    let g2 : Graph = add_vertex v g1 in
    let h2 = add_vertex-IsGraph v g1 (add_vertex-IsGraph u g h) in
    let (i, ei) = lookup-add_vertex_self u g in
    let (j, ej) = lookup-add_vertex_self v g1 in
    let (g', (e, edge)) = arcs-Edge u v g2 i j h2 (lookup-add_vertex v u g1 i ei) ej in
    let same : g2.edge_set ≡ g.edge_set = edges-add_vertex v g1 ∙ edges-add_vertex u g in
    (
      g',
      (
        e,
        (
          Edge-IsGraph u v g2 g' h2 edge,
          λ x y.
              edge.counts x y
              ∙ ap (λ t. count y (neighbours t x) + pair u v x y + pair v u x y) same,
        ),
      ),
    )
