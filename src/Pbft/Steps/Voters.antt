-- ===== src/Pbft/Steps/Voters.antt =====
-- The names in a map of votes against the names of the votes that came.
use block_preempt.Prelude.{
  ◌+◌, ◌≤◌, ◌≡◌, refl, sym, ◌∙◌, Bool, true, List, [], ◌∷◌, length, if◌then◌else◌, Bool-cases, inl,
  inr, arith,
}
use block_preempt.Account.Hex.{str_eq-false, Str, str_eq, str_eq_sound}
use block_preempt.Account.Table.{insert, has, length-insert}
use block_preempt.Pbft.Distinct.{
  mem, distinct, fresh, fresh-insert, has-insert_self, has-insert_ne, missing-has,
}
use block_preempt.Pbft.Node.{Vote, votes, votes-insert_self, votes-insert_ne}
use block_preempt.Pbft.Steps.Ballots.{vote_for}

-- Every name of the map came, and the map does not count a name twice.
pub record Heard (t : List (Str × Bool)) (xs : List Str) : Type 0 where
  pub came : (x : Str) → has t x ≡ true → mem x xs ≡ true
  pub once : length t + fresh t xs ≡ distinct xs

pub Heard-nil : Heard [] []
unfolding distinct
Heard-nil = record { came = λ x h. cc; once = refl }

pub Heard-skip : {t : List (Str × Bool)} {xs : List Str} (x : Str) → Heard t xs → Heard t (x ∷ xs)
unfolding distinct
Heard-skip {t = t} {xs = xs} x h = record {
  came = λ y e. ground (arith, h.came y e);
  once = ground (arith, h.came x, h.once);
}

pub Heard-insert :
    {t : List (Str × Bool)} {xs : List Str} (x : Str)
    → Heard t xs
    → Heard (insert t x true) (x ∷ xs)
unfolding distinct
Heard-insert {t = t} {xs = xs} x h = record {
  came = λ y e. elim (Bool-cases (str_eq x y)) [
    | inl same ↦ rw same refl
    | inr other ↦ rw other (h.came y (sym (has-insert_ne t x y (str_eq-false x y other)) ∙ e))
  ];
  once = ground (
    arith,
    has-insert_self t x,
    h.came x,
    h.once,
    fresh-insert t x xs,
    length-insert t x true,
    missing-has t x,
  );
}

pub Heard-size : {t : List (Str × Bool)} {xs : List Str} → Heard t xs → length t ≤ distinct xs
Heard-size h = omega (arith, h.once)

-- A vote for a digest comes with its sender, and takes nothing from the other digests.
pub Heard-vote :
    (v : Vote) (d : Str) (t : List (Str × List (Str × Bool))) (xs : List Str)
    → Heard (votes t d) xs
    → Heard (votes (vote_for v t) d) (if str_eq v.digest d then v.node_id ∷ xs else xs)
Heard-vote v d t xs h = elim (Bool-cases (str_eq v.digest d)) [
  | inl e ↦ rw e (
      rw (str_eq_sound v.digest d e, vote_for)
        (rw (votes-insert_self t d (insert (votes t d) v.node_id true)) (Heard-insert v.node_id h)))
  | inr e ↦ rw e (
      rw
        (votes-insert_ne t v.digest d (insert (votes t v.digest) v.node_id true)
          (str_eq-false v.digest d e))
        h)
]

-- No vote makes a count smaller.
pub length-vote :
    (v : Vote) (d : Str) (t : List (Str × List (Str × Bool)))
    → length (votes t d) ≤ length (votes (vote_for v t) d)
length-vote v d t = elim (Bool-cases (str_eq v.digest d)) [
  | inl e ↦
      rw (str_eq_sound v.digest d e, vote_for)
        (rw (votes-insert_self t d (insert (votes t d) v.node_id true))
          (omega (arith, length-insert (votes t d) v.node_id true)))
  | inr e ↦
      rw
        (votes-insert_ne t v.digest d (insert (votes t v.digest) v.node_id true)
          (str_eq-false v.digest d e))
        (omega arith)
]
