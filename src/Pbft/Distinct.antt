-- ===== src/Pbft/Distinct.antt =====
-- How many different names a list has, and that a map counts them.
use block_preempt.Prelude.{
  ℕ, suc, ◌+◌, ◌≡◌, refl, sym, ◌≢◌, Bool, true, false, ◌||◌, List, [], ◌∷◌, length, if◌then◌else◌,
  Bool-cases, inl, inr, arith,
}
use block_preempt.Account.Hex.{str_eq-false, Str, str_eq, str_eq_refl, str_eq_sound}
use block_preempt.Account.Table.{
  lookup, insert, has, missing, lookup-insert_self, lookup-insert_ne, length-insert,
}

abbrev pub mem : Str → List Str → Bool
mem k [] = false
mem k (x ∷ xs) = str_eq x k || mem k xs

-- The number of different names in a list: a name counts where it stands last.
unfoldable pub distinct : List Str → ℕ
distinct [] = 0
distinct (x ∷ xs) = let rest = distinct xs in if mem x xs then rest else suc rest

-- The same, without the keys of a map.
abbrev pub fresh : List (Str × Bool) → List Str → ℕ
fresh t [] = 0
fresh t (x ∷ xs) = let rest = fresh t xs in if has t x || mem x xs then rest else suc rest

abbrev pub insert_all : List (Str × Bool) → List Str → List (Str × Bool)
insert_all t [] = t
insert_all t (x ∷ xs) = insert_all (insert t x true) xs

abbrev one_if : Bool → ℕ
one_if true = 1
one_if false = 0

pub has-insert_self : (t : List (Str × Bool)) (x : Str) → has (insert t x true) x ≡ true
has-insert_self t x = rw (lookup-insert_self t x true, has) refl

pub has-insert_ne : (t : List (Str × Bool)) (x y : Str) → x ≢ y → has (insert t x true) y ≡ has t y
has-insert_ne t x y ne = rw (lookup-insert_ne t x y true ne, has) refl

pub missing-has : (t : List (Str × Bool)) (x : Str) → missing (lookup t x) + one_if (has t x) ≡ 1
missing-has t x = ground arith

-- A new key takes one name out of what is left to count, if the name comes.
pub fresh-insert :
    (t : List (Str × Bool)) (x : Str) (xs : List Str)
    → fresh (insert t x true) xs + (if has t x then 0 else one_if (mem x xs)) ≡ fresh t xs
fresh-insert t x [] = ground arith
fresh-insert t x (y ∷ ys) = elim (Bool-cases (str_eq y x)) [
  | inl e ↦
      rw (str_eq_sound y x e)
        (ground (arith, has-insert_self t x, str_eq_refl x, fresh-insert t x ys))
  | inr e ↦
      ground (arith, e, has-insert_ne t x y (λ q. str_eq-false y x e (sym q)), fresh-insert t x ys)
]

pub length-insert_all :
    (t : List (Str × Bool)) (xs : List Str) → length (insert_all t xs) ≡ length t + fresh t xs
length-insert_all t [] = omega arith
length-insert_all t (x ∷ xs) = ground (
  arith,
  length-insert_all (insert t x true) xs,
  length-insert t x true,
  fresh-insert t x xs,
  missing-has t x,
)

pub fresh-nil : (xs : List Str) → fresh [] xs ≡ distinct xs
unfolding distinct
fresh-nil [] = refl
fresh-nil (x ∷ xs) = ground (arith, fresh-nil xs)
