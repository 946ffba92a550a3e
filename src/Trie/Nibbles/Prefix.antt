-- ===== src/Trie/Nibbles/Prefix.antt =====
-- `PrefixMatchedLen`, and two keys split where they part.
use native.Mathlib.Decide.{ℕ_discrete}
use block_preempt.Prelude.{
  ℕ, suc, ◌<◌, ◌≡◌, refl, ap, subst, ◌≢◌, some, ◌⊎◌, inl, inr, [], ◌∷◌, ◌++◌, length, get_elem?,
  take, drop, arith,
}
use block_preempt.Trie.Nibbles.{Bytes, prefix_matched_len}

-- The two do not begin with the same nibble.
abbrev pub Apart : Bytes → Bytes → Type 0
Apart (a ∷ x) (b ∷ y) = a ≢ b
Apart _ _ = Unit

pub record Split (a b : Bytes) : Type 0 where
  pub shared : Bytes
  pub left : Bytes
  pub right : Bytes
  pub left_eq : a ≡ shared ++ left
  pub right_eq : b ≡ shared ++ right
  pub apart : Apart left right

Split-cons : {a b : Bytes} (n : ℕ) → Split a b → Split (n ∷ a) (n ∷ b)
Split-cons n s = record {
  shared = n ∷ s.shared;
  left = s.left;
  right = s.right;
  left_eq = ap (λ l. n ∷ l) s.left_eq;
  right_eq = ap (λ l. n ∷ l) s.right_eq;
  apart = s.apart;
}

pub split : (a b : Bytes) → Split a b
split [] b = record {
  shared = [];
  left = [];
  right = b;
  left_eq = refl;
  right_eq = refl;
  apart = tt;
}
split (n ∷ a) [] = record {
  shared = [];
  left = n ∷ a;
  right = [];
  left_eq = refl;
  right_eq = refl;
  apart = tt;
}
split (n ∷ a) (m ∷ b) = elim (ℕ_discrete n m) [
  | yes e ↦ subst (λ k. Split (n ∷ a) (k ∷ b)) e (Split-cons n (split a b))
  | no ne ↦ record {
    shared = [];
    left = n ∷ a;
    right = m ∷ b;
    left_eq = refl;
    right_eq = refl;
    apart = ne;
  }
]

-- The matched length is that of the common part.
pub prefix_matched_len-append :
    (p x y : Bytes) → Apart x y → prefix_matched_len (p ++ x) (p ++ y) ≡ length p
unfolding prefix_matched_len
prefix_matched_len-append [] [] y h = refl
prefix_matched_len-append [] (a ∷ x) [] h = refl
prefix_matched_len-append [] (a ∷ x) (b ∷ y) h = ground arith
prefix_matched_len-append (n ∷ p) x y h = ground (arith, prefix_matched_len-append p x y h)

pub take-shared : (p x : Bytes) → take (length p) (p ++ x) ≡ p
take-shared [] x = refl
take-shared (n ∷ p) x = ap (λ l. n ∷ l) (take-shared p x)

pub drop-shared : (p x : Bytes) → drop (length p) (p ++ x) ≡ x
drop-shared [] x = refl
drop-shared (n ∷ p) x = drop-shared p x

pub drop-shared_suc : (p : Bytes) (a : ℕ) (x : Bytes) → drop (suc (length p)) (p ++ a ∷ x) ≡ x
drop-shared_suc [] a x = refl
drop-shared_suc (n ∷ p) a x = drop-shared_suc p a x

pub get_elem?-shared : (p : Bytes) (a : ℕ) (x : Bytes) → get_elem? (p ++ a ∷ x) (length p) ≡ some a
get_elem?-shared [] a x = refl
get_elem?-shared (n ∷ p) a x = get_elem?-shared p a x

pub append_cancel : (p x y : Bytes) → p ++ x ≡ p ++ y → x ≡ y
append_cancel [] x y e = e
append_cancel (n ∷ p) x y e = append_cancel p x y (cc)

-- A key either goes on behind `p`, or stops matching inside of `p`.
pub prefix_cases :
    (p key : Bytes)
    → ((rest : Bytes) × (key ≡ p ++ rest))
      ⊎ ((prefix_matched_len p key < length p)
          × ((x : Bytes) → prefix_matched_len (p ++ x) key < length p))
unfolding prefix_matched_len
prefix_cases [] key = inl (key, refl)
prefix_cases (n ∷ p) [] = inr (omega arith, λ x. omega arith)
prefix_cases (n ∷ p) (m ∷ key) = elim (ℕ_discrete n m) [
  | yes e ↦ elim (prefix_cases p key) [
    | inl (rest, q) ↦ inl (rest, cc)
    | inr (h, hx) ↦ inr (ground arith, λ x. ground (arith, hx x))
  ]
  | no ne ↦ inr (ground arith, λ x. ground arith)
]
