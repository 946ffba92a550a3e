-- ===== src/Pbft/Steps/Ballots/Counts.antt =====
-- What counting one vote does to the parts of a ballot.
use block_preempt.Prelude.{
  ◌*◌, ◌≤◌, ◌<◌, ◌≡◌, subst, Bool, true, not, ◌&&◌, length, leb, leb→le, Bool-cases, inl, inr,
  arith,
}
use block_preempt.Account.Hex.{str_eq-false, Str, str_eq, str_eq_sound}
use block_preempt.Account.Table.{insert}
use block_preempt.Pbft.Node.{Vote, is_set, is_set-insert_ne, votes, malicious_num}
use block_preempt.Pbft.Steps.Voters.{length-vote}
use block_preempt.Pbft.Steps.Ballots.{Ballot, vote_for, count_prepare}

pub and_left : (a b : Bool) → (a && b) ≡ true → a ≡ true
and_left a b e = ground (arith, e)

-- The prepare makes the count full for the first time.
abbrev count_full : Vote → Ballot → Bool
count_full v b =
    leb (2 * malicious_num) (length (votes (vote_for v b.prepares) v.digest))
    && not (is_set b.bordcast v.digest)

pub prepares-count : (v : Vote) (b : Ballot) → (count_prepare v b).prepares ≡ vote_for v b.prepares
prepares-count v b = ground arith

pub commits-count : (v : Vote) (b : Ballot) → (count_prepare v b).commits ≡ b.commits
commits-count v b = ground arith

pub replied-count : (v : Vote) (b : Ballot) → (count_prepare v b).replied ≡ b.replied
replied-count v b = ground arith

pub bordcast-count :
    (v : Vote) (b : Ballot)
    → ((d : Str) → is_set b.bordcast d ≡ true → 2 * malicious_num ≤ length (votes b.prepares d))
    → (d : Str) → is_set (count_prepare v b).bordcast d ≡ true
    → 2 * malicious_num ≤ length (votes (count_prepare v b).prepares d)
bordcast-count v b h d e = rw (prepares-count v b) (elim (Bool-cases (count_full v b)) [
  | inl c ↦ elim (Bool-cases (str_eq v.digest d)) [
    | inl same ↦
        subst (λ x. 2 * malicious_num ≤ length (votes (vote_for v b.prepares) x))
          (str_eq_sound v.digest d same)
          (leb→le (2 * malicious_num) (length (votes (vote_for v b.prepares) v.digest))
            (and_left _ _ c))
    | inr other ↦
        let old =
          rw (is_set-insert_ne b.bordcast v.digest d true (str_eq-false v.digest d other)) at
            (rw c at e) in
        omega (arith, h d old, length-vote v d b.prepares)
  ]
  | inr c ↦ omega (arith, h d (rw c at e), length-vote v d b.prepares)
])

pub replied-reply :
    (v : Vote) (b : Ballot)
    → ((d : Str) → is_set b.replied d ≡ true → malicious_num * 2 < length (votes b.commits d))
    → malicious_num * 2 < length (votes (vote_for v b.commits) v.digest)
    → (d : Str) → is_set (insert b.replied v.digest true) d ≡ true
    → malicious_num * 2 < length (votes (vote_for v b.commits) d)
replied-reply v b h full d e = elim (Bool-cases (str_eq v.digest d)) [
  | inl same ↦
      subst (λ x. malicious_num * 2 < length (votes (vote_for v b.commits) x))
        (str_eq_sound v.digest d same) full
  | inr other ↦
      let old =
        rw (is_set-insert_ne b.replied v.digest d true (str_eq-false v.digest d other)) at e in
      omega (arith, h d old, length-vote v d b.commits)
]
