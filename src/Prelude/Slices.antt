-- ===== src/Prelude/Slices.antt =====
-- A slice that a loop writes to while it reads it, and a slice of slices that are appended to.
use Prim.Native.Nat.{ℕ, zero, suc, ◌<◌}
use mathlib.Core.Path.{◌≡◌, refl, ap, ◌∙◌}
use mathlib.Core.Option.{some}
use mathlib.Core.Logic.{inl, inr}
use mathlib.Core.List.{List, [], ◌∷◌, ◌++◌, append_assoc}
use native.Mathlib.Omega.{arith}
use block_preempt.Prelude.Lists.{length, get_elem?, get_or, set, take, drop, replicate}
use block_preempt.Prelude.Tests.{◌==◌, ==_iff, if◌then◌else◌, Bool-cases}

module _ {ℓ} {A : Type ℓ} where
  pub take-set :
      (xs : List A) (j : ℕ) (v : A)
      → j < length xs
      → take (suc j) (set xs j v) ≡ take j xs ++ v ∷ []
  take-set [] j v h = absurd (omega arith)
  take-set (x ∷ xs) zero v h = refl
  take-set (x ∷ xs) (suc j) v h = ap (λ l. x ∷ l) (take-set xs j v (omega arith))

  pub drop-set : (xs : List A) (j m : ℕ) (v : A) → j < m → drop m (set xs j v) ≡ drop m xs
  drop-set [] j m v h = refl
  drop-set (x ∷ xs) zero zero v h = absurd (omega arith)
  drop-set (x ∷ xs) zero (suc m) v h = refl
  drop-set (x ∷ xs) (suc j) zero v h = absurd (omega arith)
  drop-set (x ∷ xs) (suc j) (suc m) v h = drop-set xs j m v (omega arith)

  pub drop-cons :
      (xs : List A) (i : ℕ) (v : A) (rest : List A)
      → drop i xs ≡ v ∷ rest
      → (get_elem? xs i ≡ some v) × (drop (suc i) xs ≡ rest) × (i < length xs)
  drop-cons [] zero v rest e = cc
  drop-cons [] (suc i) v rest e = cc
  drop-cons (x ∷ xs) zero v rest e = (cc, cc, omega arith)
  drop-cons (x ∷ xs) (suc i) v rest e =
      let (h, h', h'') = drop-cons xs i v rest e in (h, h', omega (arith, h''))

module _ {A : Type 0} where
  pub get_elem?-get_or :
      (pool : List (List A)) (n : ℕ) → n < length pool → get_elem? pool n ≡ some (get_or pool n [])
  get_elem?-get_or [] n h = absurd (omega arith)
  get_elem?-get_or (x ∷ pool) zero h = refl
  get_elem?-get_or (x ∷ pool) (suc n) h = get_elem?-get_or pool n (omega arith)

  pub get_or-set :
      (pool : List (List A)) (n k : ℕ) (v : List A)
      → n < length pool
      → get_or (set pool n v) k [] ≡ (if n == k then v else get_or pool k [])
  get_or-set [] n k v h = absurd (omega arith)
  get_or-set (x ∷ pool) zero zero v h = refl
  get_or-set (x ∷ pool) zero (suc k) v h = ground arith
  get_or-set (x ∷ pool) (suc n) zero v h = ground arith
  get_or-set (x ∷ pool) (suc n) (suc k) v h = get_or-set pool n k v (omega arith) ∙ ground arith

  pub get_or-replicate : (n k : ℕ) → get_or (replicate {A = List A} n []) k [] ≡ []
  get_or-replicate zero k = refl
  get_or-replicate (suc n) zero = refl
  get_or-replicate (suc n) (suc k) = get_or-replicate n k

  -- One element more in one list.
  pub get_or-push :
      (pool : List (List A)) (n k : ℕ) (x : A) (rest : List A)
      → n < length pool
      → get_or (set pool n (get_or pool n [] ++ x ∷ [])) k [] ++ rest
        ≡ get_or pool k [] ++ (if n == k then x ∷ rest else rest)
  get_or-push pool n k x rest h =
      rw (get_or-set pool n k (get_or pool n [] ++ x ∷ []) h) (elim (Bool-cases (n == k)) [
        | inl e ↦ rw e (
            ap (λ l. (get_or pool l [] ++ x ∷ []) ++ rest) ((==_iff n k).0 e)
            ∙ append_assoc (get_or pool k []) (x ∷ []) rest)
        | inr e ↦ rw e refl
      ])
