-- ===== src/Account/Table.antt =====
-- Go's maps that the code ranges over: the entries in the order in which their keys came.
use block_preempt.Prelude.{
  ℕ, ◌+◌, ◌≡◌, refl, sym, ◌≢◌, Bool, true, false, Option, none, some, List, [], ◌∷◌, length,
  if◌then◌else◌, Bool-cases, inl, inr, arith,
}
use block_preempt.Account.Hex.{Str, str_eq, str_eq_refl, str_eq_sound, str_eq_ne, str_eq-false}

module _ {V : Type 0} where
  abbrev pub lookup : List (Str × V) → Str → Option V
  lookup [] k = none
  lookup ((k', v) ∷ t) k = let rest = lookup t k in if str_eq k' k then some v else rest

  abbrev pub insert : List (Str × V) → Str → V → List (Str × V)
  insert [] k v = (k, v) ∷ []
  insert ((k', v') ∷ t) k v =
      let rest = insert t k v in if str_eq k' k then (k', v) ∷ t else (k', v') ∷ rest

module _ {V : Type 0} where
  pub lookup-insert_self : (t : List (Str × V)) (k : Str) (v : V) → lookup (insert t k v) k ≡ some v
  lookup-insert_self [] k v = rw (str_eq_refl k) refl
  lookup-insert_self ((k', v') ∷ t) k v = elim (Bool-cases (str_eq k' k)) [
    | inl e ↦ rw e (rw e refl)
    | inr e ↦ rw e (rw e (lookup-insert_self t k v))
  ]

  pub lookup-insert_ne :
      (t : List (Str × V)) (k j : Str) (v : V) → k ≢ j → lookup (insert t k v) j ≡ lookup t j
  lookup-insert_ne [] k j v ne = rw (str_eq_ne k j ne) refl
  lookup-insert_ne ((k', v') ∷ t) k j v ne = elim (Bool-cases (str_eq k' k)) [
    | inl e ↦
        let other : str_eq k' j ≡ false = rw (str_eq_sound k' k e) (str_eq_ne k j ne) in
        rw e (rw other refl)
    | inr e ↦ rw e (simp (lookup-insert_ne t k j v ne) refl)
  ]

  pub lookup-insert :
      (t : List (Str × V)) (k : Str) (v : V) (j : Str)
      → lookup (insert t k v) j ≡ (if str_eq k j then some v else lookup t j)
  lookup-insert t k v j = elim (Bool-cases (str_eq k j)) [
    | inl e ↦ rw e (rw (sym (str_eq_sound k j e)) (lookup-insert_self t k v))
    | inr e ↦ rw e (lookup-insert_ne t k j v (str_eq-false k j e))
  ]

  abbrev pub missing : Option V → ℕ
  missing none = 1
  missing (some v) = 0

  -- Only a new key makes the map longer.
  pub length-insert :
      (t : List (Str × V)) (k : Str) (v : V)
      → length (insert t k v) ≡ length t + missing (lookup t k)
  length-insert [] k v = refl
  length-insert ((k', v') ∷ t) k v = elim (Bool-cases (str_eq k' k)) [
    | inl e ↦ rw e (omega arith)
    | inr e ↦ rw e (omega (arith, length-insert t k v))
  ]

  abbrev pub has : List (Str × V) → Str → Bool
  has t k = elim (lookup t k) [ none ↦ false | some v ↦ true ]
