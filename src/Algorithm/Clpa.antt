-- ===== src/Algorithm/Clpa.antt =====
-- algorithm/partition_CLPA.go: the label propagation that assigns accounts to shards. A
-- float64 is a value of any type `F`. Slices are indexed by `int`, and an index out of range is a panic.
pub mod Moves
pub mod Weights
pub mod Run
use block_preempt.Prelude.{
  ℕ, zero, suc, ◌+◌, ◌/◌, Bool, true, false, not, ◌&&◌, Option, none, some, List, [], ◌∷◌, ◌++◌,
  length, get_elem?, set, replicate, leb, ltb, ◌==◌, if◌then◌else◌, ◌>>=◌,
}
use block_preempt.Prelude.Int.{ℤ, pos, negsuc, ◌+ℤ◌, ltb_ℤ}
use block_preempt.Params.{ChainConfig}
use block_preempt.Account.Hex.{Str}
use block_preempt.Account.Shards.{Shards, addr2shard, eq_ℤ}
use block_preempt.Account.Table.{lookup, insert}
use block_preempt.Algorithm.Graph.{Graph, add_vertex, add_edge, neighbours}

pub record ClpaState (F : Type 0) : Type 0 where
  pub net_graph : Graph
  pub partition_map : List (Str × ℤ)
  pub edges2shard : List ℤ
  pub vertexs_num_in_shard : List ℤ
  pub weight_penalty : F
  pub min_edges2shard : ℤ
  pub max_iterations : ℕ
  pub cross_shard_edge_num : ℤ
  pub shard_num : ℕ

abbrev pub shard_of : List (Str × ℤ) → Str → ℤ
shard_of t v = elim (lookup t v) [ none ↦ pos 0 | some s ↦ s ]

-- `a[i]` and `a[i] += d`.
abbrev pub at_index : List ℤ → ℤ → Option ℤ
at_index a (pos i) = get_elem? a i
at_index a (negsuc i) = none

abbrev pub add_at : List ℤ → ℤ → ℤ → Option (List ℤ)
add_at a (pos i) d = get_elem? a i >>= λ x. some (set a i (x +ℤ d))
add_at a (negsuc i) d = none

abbrev pub min_from : ℤ → List ℤ → ℤ
min_from m [] = m
min_from m (x ∷ xs) = min_from (if ltb_ℤ x m then x else m) xs

module _ {F : Type 0} where
  unfoldable pub init_clpa_state : F → ℕ → ℕ → ClpaState F → ClpaState F
  init_clpa_state wp m_iter sn cs = record cs {
    weight_penalty = wp;
    max_iterations = m_iter;
    shard_num = sn;
    vertexs_num_in_shard = replicate sn (pos 0);
    partition_map = [];
  }

  -- The table of shards is asked for an account without a place.
  unfoldable pub place :
      ChainConfig → ℤ → Str → Shards → ClpaState F → Option ℤ → Option (ℤ × Shards)
  place c own v t cs (some val) = some (val, t)
  place c own v t cs none = addr2shard c own v t

  unfoldable pub add_vertex_clpa :
      ChainConfig → ℤ → Str → Shards → ClpaState F → Option (Shards × ClpaState F)
  unfolding place
  add_vertex_clpa c own v t cs = place c own v t cs (lookup cs.partition_map v) >>= λ a.
      add_at cs.vertexs_num_in_shard a.0 (pos 1) >>= λ nums. some (
        a.1,
        record cs {
          net_graph = add_vertex v cs.net_graph;
          partition_map = insert cs.partition_map v a.0;
          vertexs_num_in_shard = nums;
        },
      )

  abbrev pub add_missing :
      ChainConfig → ℤ → Str → Shards → ClpaState F → Option ℕ → Option (Shards × ClpaState F)
  add_missing c own v t cs none = add_vertex_clpa c own v t cs
  add_missing c own v t cs (some i) = some (t, cs)

  unfoldable pub add_edge_clpa :
      ChainConfig → ℤ → Str → Str → Shards → ClpaState F → Option (Shards × ClpaState F)
  unfolding add_vertex_clpa
  add_edge_clpa c own u v t cs =
      add_missing c own u t cs (lookup cs.net_graph.vertex_set u) >>= λ a.
      add_missing c own v a.0 a.1 (lookup a.1.net_graph.vertex_set v) >>= λ b.
      add_edge u v 0 b.1.net_graph >>= λ g. some (b.0, record b.1 { net_graph = g })

  -- One neighbour of the vertex that moved from `old` to `new`.
  unfoldable pub shift : ℤ → ℤ → ℤ → ClpaState F → Option (ClpaState F)
  shift old new u_shard cs =
      if not (eq_ℤ new u_shard)
      then (add_at cs.edges2shard new (pos 1) >>= λ es.
          if eq_ℤ u_shard old
          then some (record cs {
            edges2shard = es;
            cross_shard_edge_num = cs.cross_shard_edge_num +ℤ pos 1;
          })
          else add_at es old (negsuc 0) >>= λ es'. some (record cs { edges2shard = es' }))
      else (add_at cs.edges2shard old (negsuc 0) >>= λ es. some (record cs {
        edges2shard = es;
        cross_shard_edge_num = cs.cross_shard_edge_num +ℤ negsuc 0;
      }))

  unfoldable pub shift_all : ℤ → ℤ → List Str → ClpaState F → Option (ClpaState F)
  unfolding shift
  shift_all old new [] cs = some cs
  shift_all old new (u ∷ us) cs =
      shift old new (shard_of cs.partition_map u) cs >>= λ cs'. shift_all old new us cs'

  unfoldable pub compute_edges2shard1 : Str → ℤ → ClpaState F → Option (ClpaState F)
  unfolding shift_all
  compute_edges2shard1 v oldshard cs =
      shift_all oldshard (shard_of cs.partition_map v) (neighbours cs.net_graph.edge_set v) cs
      >>= λ cs'. at_index cs'.edges2shard (pos 0) >>= λ m.
          some (record cs' { min_edges2shard = min_from m cs'.edges2shard })
