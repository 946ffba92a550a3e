-- ===== src/Algorithm/Clpa/Run/Tally.antt =====
-- `VertexsNumInShard` counts the vertices of each shard, and the moves of `CLPA_Partition` keep it so.
use block_preempt.Prelude.{
  ℕ, suc, ◌+◌, ◌<◌, ◌≡◌, refl, ap, ◌∙◌, some, List, [], ◌∷◌, length, get_or, ◌==◌, if◌then◌else◌,
  Bool-cases, inl, inr, arith,
}
use block_preempt.Prelude.Int.{ℤ, pos, negsuc, ◌+ℤ◌}
use block_preempt.Account.Hex.{Str, str_eq, str_eq_sound}
use block_preempt.Account.Shards.{eq_ℤ}
use block_preempt.Account.Table.{insert, lookup-insert_self}
use block_preempt.Algorithm.Graph.Vertices.{count}
use block_preempt.Algorithm.Clpa.{shard_of, add_at}
use block_preempt.Algorithm.Clpa.Moves.{add_at-value}
use block_preempt.Algorithm.Clpa.Weights.{shard_of-insert_ne}

-- The vertices of `vs` in shard `k`.
abbrev pub tally : List (Str × ℤ) → List Str → ℕ → ℕ
tally p [] k = 0
tally p (v ∷ vs) k =
    let rest = tally p vs k in if eq_ℤ (shard_of p v) (pos k) then suc rest else rest

abbrev pub IsTallied : List (Str × ℤ) → List Str → List ℤ → Type 0
IsTallied p vs nums = (k : ℕ) → k < length nums → get_or nums k (pos 0) ≡ pos (tally p vs k)

shard_of-insert_self : (p : List (Str × ℤ)) (v : Str) (s : ℤ) → shard_of (insert p v s) v ≡ s
shard_of-insert_self p v s = rw (lookup-insert_self p v s, shard_of) refl

tally-absent :
    (p : List (Str × ℤ)) (v : Str) (s : ℤ) (vs : List Str) (k : ℕ)
    → count v vs ≡ 0
    → tally (insert p v s) vs k ≡ tally p vs k
tally-absent p v s [] k h = refl
tally-absent p v s (u ∷ vs) k h = elim (Bool-cases (str_eq u v)) [
  | inl e ↦ let z : suc (count v vs) ≡ 0 = rw e at h in absurd (omega (arith, z))
  | inr e ↦ rw (shard_of-insert_ne p v u s e) (rw (tally-absent p v s vs k (rw e at h)) refl)
]

-- A vertex that stands in the list once goes from shard `a` to shard `b`.
pub tally-move :
    (p : List (Str × ℤ)) (v : Str) (a b : ℕ) (vs : List Str) (k : ℕ)
    → count v vs ≡ 1
    → shard_of p v ≡ pos a
    → tally (insert p v (pos b)) vs k + (if a == k then 1 else 0)
      ≡ tally p vs k + (if b == k then 1 else 0)
tally-move p v a b [] k h e = absurd (omega (arith, h))
tally-move p v a b (u ∷ vs) k h e = elim (Bool-cases (str_eq u v)) [
  | inl q ↦
      let h' : suc (count v vs) ≡ 1 = rw q at h in
      let same : u ≡ v = str_eq_sound u v q in
      rw same (
        rw (shard_of-insert_self p v (pos b))
          (rw e (rw (tally-absent p v (pos b) vs k (omega (arith, h'))) (ground arith))))
  | inr q ↦
      let ih = tally-move p v a b vs k (rw q at h) e in
      rw (shard_of-insert_ne p v u (pos b) q) (elim (Bool-cases (eq_ℤ (shard_of p u) (pos k))) [
        | inl w ↦ rw w (omega (arith, ih))
        | inr w ↦ rw w ih
      ])
]

-- One vertex more in shard `b` and one less in shard `a`, in the counts and in the tally.
balance :
    (a b k t t' : ℕ)
    → t' + (if a == k then 1 else 0) ≡ t + (if b == k then 1 else 0)
    → pos t +ℤ (if a == k then negsuc 0 else pos 0) +ℤ (if b == k then pos 1 else pos 0) ≡ pos t'
unfolding ◌+ℤ◌
balance a b k t t' h = ground (arith, h)

pub move-IsTallied :
    (p : List (Str × ℤ)) (v : Str) (a b : ℕ) (vs : List Str) (nums : List ℤ)
    → IsTallied p vs nums
    → count v vs ≡ 1
    → shard_of p v ≡ pos a
    → a < length nums
    → b < length nums
    → (less : List ℤ) × (nums' : List ℤ) × (add_at nums (pos a) (negsuc 0) ≡ some less)
      × (add_at less (pos b) (pos 1) ≡ some nums')
      × (length nums' ≡ length nums)
      × IsTallied (insert p v (pos b)) vs nums'
move-IsTallied p v a b vs nums tallied once here ha hb =
    let (less, (e₁, (l₁, value₁))) = add_at-value nums a (negsuc 0) ha in
    let (nums', (e₂, (l₂, value₂))) = add_at-value less b (pos 1) (omega (arith, l₁)) in
    (
      less,
      nums',
      e₁,
      e₂,
      l₂ ∙ l₁,
      λ k small.
          value₂ k
          ∙ ap (λ x. x +ℤ (if b == k then pos 1 else pos 0))
              (value₁ k
                ∙ ap (λ x. x +ℤ (if a == k then negsuc 0 else pos 0))
                    (tallied k (omega (arith, small, l₁, l₂))))
          ∙ balance a b k (tally p vs k) (tally (insert p v (pos b)) vs k)
              (tally-move p v a b vs k once here),
    )
