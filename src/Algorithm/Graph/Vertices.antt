-- ===== src/Algorithm/Graph/Vertices.antt =====
-- What a vertex adds to a graph.
use block_preempt.Prelude.{
  ℕ, zero, suc, ◌+◌, ◌≡◌, refl, sym, ap, ◌∙◌, ◌≢◌, ◌&&◌, Option, none, some, List, [], ◌∷◌, ◌++◌,
  length, get_elem?, length-append, if◌then◌else◌, some_inj, Bool-cases, Option-cases, inl, inr,
  subst, arith,
}
use block_preempt.Account.Hex.{str_eq-false, Str, str_eq, str_eq_sound}
use block_preempt.Account.Table.{lookup, lookup-insert_self, lookup-insert_ne}
use block_preempt.Algorithm.Graph.{Graph, add_new, add_vertex, neighbours}

-- How often a name stands in a list.
abbrev pub count : Str → List Str → ℕ
count k [] = 0
count k (x ∷ xs) = let rest = count k xs in if str_eq x k then suc rest else rest

-- The indices name the vertices, every vertex has its weights, and the neighbours go both ways.
pub record IsGraph (g : Graph) : Type 0 where
  pub sizes : length g.edge_weight ≡ length g.vertexs
  pub indexed : (v : Str) (i : ℕ) → lookup g.vertex_set v ≡ some i → get_elem? g.vertexs i ≡ some v
  pub symmetric :
      (u v : Str) → count v (neighbours g.edge_set u) ≡ count u (neighbours g.edge_set v)

-- 1 for the pair of `u` and `v`.
abbrev pub pair : Str → Str → Str → Str → ℕ
pair u v x y = if str_eq u x && str_eq v y then 1 else 0

get_elem?-snoc : (xs : List Str) (v : Str) → get_elem? (xs ++ v ∷ []) (length xs) ≡ some v
get_elem?-snoc [] v = refl
get_elem?-snoc (x ∷ xs) v = get_elem?-snoc xs v

get_elem?-append :
    (xs ys : List Str) (i : ℕ) (v : Str) → get_elem? xs i ≡ some v → get_elem? (xs ++ ys) i ≡ some v
get_elem?-append [] ys i v e = cc
get_elem?-append (x ∷ xs) ys zero v e = e
get_elem?-append (x ∷ xs) ys (suc i) v e = get_elem?-append xs ys i v e

pub count-snoc :
    (k x : Str) (xs : List Str)
    → count k (xs ++ x ∷ []) ≡ count k xs + (if str_eq x k then 1 else 0)
count-snoc k x [] = ground arith
count-snoc k x (y ∷ ys) = ground (arith, count-snoc k x ys)

-- A new vertex takes the next index.
add_new-IsGraph : (v : Str) (g : Graph) (o : Option ℕ) → IsGraph g → IsGraph (add_new v g o)
add_new-IsGraph v g (some i) h = h
add_new-IsGraph v g none h = record {
  sizes = omega (
    arith,
    h.sizes,
    length-append g.edge_weight ((λ j. 0) ∷ []),
    length-append g.vertexs (v ∷ []),
  );
  indexed = λ w i e. elim (Bool-cases (str_eq v w)) [
    | inl same ↦
        let q = str_eq_sound v w same in
        let at_end : length g.vertexs ≡ i =
          some_inj (sym (lookup-insert_self g.vertex_set w (length g.vertexs)) ∙ (rw q at e)) in
        subst (λ x. get_elem? (g.vertexs ++ v ∷ []) i ≡ some x) q
          (subst (λ n. get_elem? (g.vertexs ++ v ∷ []) n ≡ some v) at_end
            (get_elem?-snoc g.vertexs v))
    | inr other ↦ get_elem?-append g.vertexs (v ∷ []) i w (
        h.indexed w i
          (sym (lookup-insert_ne g.vertex_set v w (length g.vertexs) (str_eq-false v w other)) ∙ e))
  ];
  symmetric = h.symmetric;
}

pub add_vertex-IsGraph : (v : Str) (g : Graph) → IsGraph g → IsGraph (add_vertex v g)
unfolding add_vertex
add_vertex-IsGraph v g h = add_new-IsGraph v g (lookup g.vertex_set v) h

none≢some : {A : Type 0} {a : A} → none ≢ some a
none≢some e = cc

-- The vertex is there afterwards, and those that were there stay.
pub lookup-add_vertex_self :
    (v : Str) (g : Graph) → (i : ℕ) × (lookup (add_vertex v g).vertex_set v ≡ some i)
unfolding add_vertex
lookup-add_vertex_self v g = elim (Option-cases (lookup g.vertex_set v)) [
  | inl e ↦ rw e (length g.vertexs, lookup-insert_self g.vertex_set v (length g.vertexs))
  | inr (i, e) ↦ rw e (i, e)
]

pub lookup-add_vertex :
    (v w : Str) (g : Graph) (i : ℕ)
    → lookup g.vertex_set w ≡ some i
    → lookup (add_vertex v g).vertex_set w ≡ some i
unfolding add_vertex
lookup-add_vertex v w g i e = elim (Option-cases (lookup g.vertex_set v)) [
  | inl absent ↦ rw absent (elim (Bool-cases (str_eq v w)) [
    | inl same ↦
        absurd
          (none≢some (sym absent ∙ ap (λ x. lookup g.vertex_set x) (str_eq_sound v w same) ∙ e))
    | inr other ↦ lookup-insert_ne g.vertex_set v w (length g.vertexs) (str_eq-false v w other) ∙ e
  ])
  | inr (j, there) ↦ rw there e
]

pub edges-add_vertex : (v : Str) (g : Graph) → (add_vertex v g).edge_set ≡ g.edge_set
unfolding add_vertex
edges-add_vertex v g = ground arith
