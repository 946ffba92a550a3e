-- ===== src/Algorithm/Clpa/Run/Total.antt =====
-- `CLPA_Partition` as a whole: it ends without a panic, whatever the scores are.
use block_preempt.Prelude.{
  ℕ, zero, suc, ◌<◌, ◌≤◌, ◌≡◌, refl, sym, subst, ap, ◌∙◌, ◌≢◌, true, false, Option, some, List, [],
  ◌∷◌, ◌++◌, length, get_elem?, get_or, some_of_lt, leb, ◌==◌, ==_iff, if◌then◌else◌, Bool-cases,
  inl, inr, arith,
}
use block_preempt.Prelude.Int.{ℤ, pos, negsuc, ltb_ℤ}
use block_preempt.Account.Hex.{Str}
use block_preempt.Account.Shards.{eq_ℤ, assign}
use block_preempt.Account.Table.{insert, has}
use block_preempt.Algorithm.Graph.{neighbours}
use block_preempt.Algorithm.Graph.Vertices.{count}
use block_preempt.Algorithm.Clpa.{ClpaState, shard_of, at_index}
use block_preempt.Algorithm.Clpa.Run.{
  Floats, Best, Moving, get_shard_score, consider, best_of, move, visit, visit_all, iterate,
  clpa_partition,
}
use block_preempt.Algorithm.Clpa.Run.Frame.{
  Below, InShards, InShards-insert, compute_edges2shard1-Frames, compute_edges2shard-Frames,
}
use block_preempt.Algorithm.Clpa.Run.Tally.{tally, IsTallied, tally-move, move-IsTallied}

-- A shard with a vertex keeps one.
abbrev pub Keeps : ℕ → List Str → List (Str × ℤ) → List (Str × ℤ) → Type 0
Keeps n vs p p' = (k : ℕ) → k < n → 1 ≤ tally p vs k → 1 ≤ tally p' vs k

get_or-some : (xs : List ℤ) (i : ℕ) (x : ℤ) → get_elem? xs i ≡ some x → get_or xs i (pos 0) ≡ x
get_or-some [] i x e = cc
get_or-some (y ∷ xs) zero x e = cc
get_or-some (y ∷ xs) (suc i) x e = get_or-some xs i x e

more_than_one : (x : ℤ) (t : ℕ) → x ≡ pos t → ltb_ℤ (pos 1) x ≡ true → 2 ≤ t
more_than_one x t e h =
    let h' : ltb_ℤ (pos 1) (pos t) ≡ true = subst (λ y. ltb_ℤ (pos 1) y ≡ true) e h in
    ground (arith, h')

module _ (fl : Floats) where
  get_shard_score-some :
      (n : ℕ) (v : Str) (s : ℤ) (cs : ClpaState fl.F)
      → Below n s
      → length cs.edges2shard ≡ n
      → (score : fl.F) × (get_shard_score fl v s cs ≡ some score)
  unfolding get_shard_score
  get_shard_score-some n v s cs (k, e, small) len =
      let (x, found) = some_of_lt cs.edges2shard k (omega arith) in rw e (rw found (_, refl))

  best_of-Below :
      (n : ℕ) (v : Str) (cs : ClpaState fl.F) (us : List Str) (b : Best fl)
      → InShards n cs.partition_map
      → length cs.edges2shard ≡ n
      → Below n b.max_shard
      → (b' : Best fl) × (best_of fl v cs us b ≡ some b') × Below n b'.max_shard
  unfolding best_of
  best_of-Below n v cs [] b shards len h = (b, refl, h)
  best_of-Below n v cs (u ∷ us) b shards len h =
      let s = shard_of cs.partition_map u in
      elim (Bool-cases (b.computed s)) [
        | inl w ↦ let (b', e', h') = best_of-Below n v cs us b shards len h in (b', rw w e', h')
        | inr w ↦
            let (score, e) = get_shard_score-some n v s cs (shards u) len in
            let h₁ : Below n (consider fl s score b).max_shard =
              elim (Bool-cases (fl.less b.max_score score)) [
                | inl q ↦ rw q (shards u)
                | inr q ↦ rw q h
              ] in
            let (b', e', h') = best_of-Below n v cs us (consider fl s score b) shards len h₁ in
            (b', rw w (rw e e'), h')
      ]

  abbrev pub Good : ℕ → List Str → ClpaState fl.F → Type 0
  Good n vs cs =
      (cs.net_graph.vertexs ≡ vs)
      × InShards n cs.partition_map
      × (length cs.edges2shard ≡ n)
      × (length cs.vertexs_num_in_shard ≡ n)
      × IsTallied cs.partition_map vs cs.vertexs_num_in_shard

  move-Good :
      (n : ℕ) (vs : List Str) (v : Str) (a b : ℕ) (m : Moving fl)
      → Good n vs m.cs
      → count v vs ≡ 1
      → shard_of m.cs.partition_map v ≡ pos a
      → a < n
      → b < n
      → (m' : Moving fl) × (move fl v (pos a) (pos b) m ≡ some m')
        × Good n vs m'.cs
        × (m'.cs.partition_map ≡ insert m.cs.partition_map v (pos b))
  unfolding move
  move-Good n vs v a b m (graph, shards, edges, counts, tallied) once here ha hb =
      let (less, nums, e₁, e₂, l, tallied') =
        move-IsTallied m.cs.partition_map v a b vs m.cs.vertexs_num_in_shard tallied once here
          (omega (arith, counts)) (omega (arith, counts)) in
      let p = insert m.cs.partition_map v (pos b) in
      let shards' = InShards-insert n m.cs.partition_map v (pos b) shards (b, refl, hb) in
      let moved : ClpaState fl.F = record m.cs { partition_map = p; vertexs_num_in_shard = nums } in
      let (cs, e₃, (g, q, w, i, len)) =
        compute_edges2shard1-Frames n v (pos a) moved (a, refl, ha) shards' edges in
      (
        record {
          cs = cs;
          addrs = if has m.res v then m.addrs else m.addrs ++ v ∷ [];
          res = insert m.res v b;
          update_treshold = assign m.update_treshold v (suc (m.update_treshold v));
        },
        rw e₁ (rw e₂ (rw e₃ refl)),
        (
          ap (λ x. x.vertexs) g ∙ graph,
          rw q shards',
          len,
          ap length w ∙ l ∙ counts,
          rw q (rw w tallied'),
        ),
        q,
      )

  Keeps-move :
      (n : ℕ) (vs : List Str) (p : List (Str × ℤ)) (v : Str) (a b : ℕ)
      → count v vs ≡ 1
      → shard_of p v ≡ pos a
      → a ≢ b
      → 2 ≤ tally p vs a
      → Keeps n vs p (insert p v (pos b))
  Keeps-move n vs p v a b once here ne two k small h =
      let moved = tally-move p v a b vs k once here in
      elim (Bool-cases (a == k)) [
        | inl e ↦
            let q : a ≡ k = (==_iff a k).0 e in
            let two' : 2 ≤ tally p vs k = rw (sym q) two in
            let other : (b == k) ≡ false = ground arith in
            let moved' = rw other at (rw e at moved) in omega (arith, moved', two')
        | inr e ↦ let moved' = rw e at moved in ground (arith, moved')
      ]

  -- The vertex of one pass, where it moves.
  move-Keeps :
      (n : ℕ) (vs : List Str) (v : Str) (to : ℤ) (x : ℤ) (m : Moving fl)
      → Good n vs m.cs
      → count v vs ≡ 1
      → Below n to
      → eq_ℤ (shard_of m.cs.partition_map v) to ≡ false
      → at_index m.cs.vertexs_num_in_shard (shard_of m.cs.partition_map v) ≡ some x
      → ltb_ℤ (pos 1) x ≡ true
      → (m' : Moving fl) × (move fl v (shard_of m.cs.partition_map v) to m ≡ some m')
        × Good n vs m'.cs
        × Keeps n vs m.cs.partition_map m'.cs.partition_map
  move-Keeps n vs v to x m good once (b, eb, hb) differ found more =
      let (graph, shards, edges, counts, tallied) = good in
      let (a, ea, ha) = shards v in
      let (m', e, good', q) = move-Good n vs v a b m good once ea ha hb in
      let ne : a ≢ b = λ same.
        (let z : eq_ℤ (pos a) (pos b) ≡ false = rw eb at (rw ea at differ) in
          absurd (ground (arith, z, same))) in
      let two : 2 ≤ tally m.cs.partition_map vs a =
        more_than_one x (tally m.cs.partition_map vs a)
          (sym (get_or-some m.cs.vertexs_num_in_shard a x (rw ea at found))
            ∙ tallied a (omega (arith, counts)))
          more in
      (m', rw ea (rw eb e), good', rw q (Keeps-move n vs m.cs.partition_map v a b once ea ne two))

  abbrev pub Passes : ℕ → List Str → Moving fl → Option (Moving fl) → Type 0
  Passes n vs m o =
      (m' : Moving fl) × (o ≡ some m')
      × Good n vs m'.cs
      × Keeps n vs m.cs.partition_map m'.cs.partition_map

  stays : (n : ℕ) (vs : List Str) (m : Moving fl) → Good n vs m.cs → Passes n vs m (some m)
  stays n vs m good = (m, refl, good, λ k small h. h)

  visit-Passes :
      (n : ℕ) (vs : List Str) (v : Str) (m : Moving fl)
      → Good n vs m.cs
      → count v vs ≡ 1
      → Passes n vs m (visit fl v m)
  unfolding visit
  visit-Passes n vs v m good once =
      let (graph, shards, edges, counts, tallied) = good in
      let now = shard_of m.cs.partition_map v in
      let us = neighbours m.cs.net_graph.edge_set v in
      let start : Best fl = record {
        computed = λ k. false;
        max_score = fl.of_int (negsuc 9998);
        max_shard = now;
      } in
      elim (Bool-cases (leb 1000 (m.update_treshold v))) [
        | inl e ↦ rw e (stays n vs m good)
        | inr e ↦
            let (b, eb, hb) = best_of-Below n v m.cs us start shards edges (shards v) in
            rw e (
              rw eb (elim (Bool-cases (eq_ℤ now b.max_shard)) [
                | inl same ↦ rw same (stays n vs m good)
                | inr differ ↦
                    let (a, ea, ha) = shards v in
                    let (x, found) =
                      some_of_lt m.cs.vertexs_num_in_shard a (omega (arith, counts)) in
                    let found' : at_index m.cs.vertexs_num_in_shard now ≡ some x =
                      ap (at_index m.cs.vertexs_num_in_shard) ea ∙ found in
                    rw differ (
                      rw found' (elim (Bool-cases (ltb_ℤ (pos 1) x)) [
                        | inl more ↦
                            rw more
                              (move-Keeps n vs v b.max_shard x m good once hb differ found' more)
                        | inr alone ↦ rw alone (stays n vs m good)
                      ]))
              ]))
      ]

  -- Each vertex of a list stands in `vs` once.
  abbrev pub AllOnceIn : List Str → List Str → Type 0
  AllOnceIn vs [] = Unit
  AllOnceIn vs (v ∷ rest) = (count v vs ≡ 1) × AllOnceIn vs rest

  visit_all-Passes :
      (n : ℕ) (vs rest : List Str) (m : Moving fl)
      → Good n vs m.cs
      → AllOnceIn vs rest
      → Passes n vs m (visit_all fl rest m)
  unfolding visit_all
  visit_all-Passes n vs [] m good once = stays n vs m good
  visit_all-Passes n vs (v ∷ rest) m good (once, more) =
      let (m₁, e₁, good₁, keeps₁) = visit-Passes n vs v m good once in
      let (m₂, e₂, good₂, keeps₂) = visit_all-Passes n vs rest m₁ good₁ more in
      (m₂, rw e₁ e₂, good₂, λ k small h. keeps₂ k small (keeps₁ k small h))

  iterate-Passes :
      (n : ℕ) (vs : List Str) (i : ℕ) (m : Moving fl)
      → Good n vs m.cs
      → AllOnceIn vs vs
      → Passes n vs m (iterate fl i m)
  unfolding iterate
  iterate-Passes n vs zero m good once = stays n vs m good
  iterate-Passes n vs (suc i) m good once =
      let once' : AllOnceIn vs m.cs.net_graph.vertexs = rw good.0 once in
      let (m₁, e₁, good₁, keeps₁) = visit_all-Passes n vs m.cs.net_graph.vertexs m good once' in
      let (m₂, e₂, good₂, keeps₂) = iterate-Passes n vs i m₁ good₁ once in
      (m₂, rw e₁ e₂, good₂, λ k small h. keeps₂ k small (keeps₁ k small h))

  -- Whatever the scores are: from a graph whose vertices differ, a partition into the ShardNum shards and
  -- a VertexsNumInShard that counts it, CLPA_Partition ends without a panic. The partition is into the
  -- ShardNum shards again, VertexsNumInShard counts it, and a shard that had a vertex has one still.
  pub clpa_partition-ends :
      (cs : ClpaState fl.F)
      → InShards cs.shard_num cs.partition_map
      → length cs.vertexs_num_in_shard ≡ cs.shard_num
      → IsTallied cs.partition_map cs.net_graph.vertexs cs.vertexs_num_in_shard
      → AllOnceIn cs.net_graph.vertexs cs.net_graph.vertexs
      → (m : Moving fl) × (clpa_partition fl cs ≡ some m)
        × InShards cs.shard_num m.cs.partition_map
        × IsTallied m.cs.partition_map cs.net_graph.vertexs m.cs.vertexs_num_in_shard
        × Keeps cs.shard_num cs.net_graph.vertexs cs.partition_map m.cs.partition_map
  unfolding clpa_partition
  clpa_partition-ends cs shards counts tallied once =
      let n = cs.shard_num in
      let vs = cs.net_graph.vertexs in
      let (cs₁, e₁, (g, p, w, i, len)) = compute_edges2shard-Frames cs shards in
      let start : Moving fl = record { cs = cs₁; addrs = []; res = []; update_treshold = λ v. 0 } in
      let good : Good n vs cs₁ =
        (ap (λ x. x.vertexs) g, rw p shards, len, ap length w ∙ counts, rw p (rw w tallied)) in
      let (m, e₂, good', keeps) = iterate-Passes n vs cs₁.max_iterations start good once in
      (m, rw e₁ e₂, good'.1, good'.4, λ k small h. keeps k small (rw p h))
