-- ===== src/Trie/Branch/Slots.antt =====
-- The index of a branch that `SetBranch` alone built: the entries that are not -1 count up.
use mathlib.Core.Option
use block_preempt.Prelude.{
  ℕ, zero, suc, ◌+◌, ◌-◌, ◌≤◌, ◌<◌, ◌≡◌, refl, ap, none, some, [], ◌∷◌, map, get_elem?, drop,
  length, length-map, arith,
}
use block_preempt.Trie.Node.{Index}
use block_preempt.Trie.Branch.{present, insert_slot}

-- The entries of `ix` that are not -1 are s, s + 1, …, n - 1, in the order of the nibbles.
abbrev pub IsOrdered : ℕ → Index → ℕ → Type 0
IsOrdered s [] n = s ≡ n
IsOrdered s (none ∷ ix) n = IsOrdered s ix n
IsOrdered s (some i ∷ ix) n = (i ≡ s) × IsOrdered (suc s) ix n

pub IsOrdered-present : (s n : ℕ) (ix : Index) → IsOrdered s ix n → s + present ix ≡ n
IsOrdered-present s n [] h = omega arith
IsOrdered-present s n (none ∷ ix) h = IsOrdered-present s n ix h
IsOrdered-present s n (some i ∷ ix) h = omega (arith, IsOrdered-present (suc s) n ix h.1)

IsOrdered-bump :
    (s n : ℕ) (ix : Index) → IsOrdered s ix n → IsOrdered (suc s) (map (Option.map suc) ix) (suc n)
IsOrdered-bump s n [] h = omega arith
IsOrdered-bump s n (none ∷ ix) h = IsOrdered-bump s n ix h
IsOrdered-bump s n (some i ∷ ix) h = (ap suc h.0, IsOrdered-bump (suc s) n ix h.1)

get_elem?-bump :
    (ix : Index) (d : ℕ)
    → get_elem? (map (Option.map suc) ix) d ≡ Option.map (Option.map suc) (get_elem? ix d)
get_elem?-bump [] d = refl
get_elem?-bump (x ∷ ix) zero = refl
get_elem?-bump (x ∷ ix) (suc d) = get_elem?-bump ix d

pub get_elem?-insert_slot_self :
    (c f : ℕ) (ix : Index) → c < length ix → get_elem? (insert_slot c f ix) c ≡ some (some f)
get_elem?-insert_slot_self c f [] h = elim h [ ]
get_elem?-insert_slot_self zero f (x ∷ ix) h = refl
get_elem?-insert_slot_self (suc c) f (x ∷ ix) h = get_elem?-insert_slot_self c f ix (omega arith)

pub get_elem?-insert_slot_below :
    (c f : ℕ) (ix : Index) (d : ℕ) → d < c → get_elem? (insert_slot c f ix) d ≡ get_elem? ix d
get_elem?-insert_slot_below c f [] d h = refl
get_elem?-insert_slot_below zero f (x ∷ ix) d h = elim h [ ]
get_elem?-insert_slot_below (suc c) f (x ∷ ix) zero h = refl
get_elem?-insert_slot_below (suc c) f (x ∷ ix) (suc d) h =
    get_elem?-insert_slot_below c f ix d (omega arith)

pub get_elem?-insert_slot_above :
    (c f : ℕ) (ix : Index) (d : ℕ)
    → c < d
    → get_elem? (insert_slot c f ix) d ≡ Option.map (Option.map suc) (get_elem? ix d)
get_elem?-insert_slot_above c f [] d h = refl
get_elem?-insert_slot_above c f (x ∷ ix) zero h = elim h [ ]
get_elem?-insert_slot_above zero f (x ∷ ix) (suc d) h = get_elem?-bump ix d
get_elem?-insert_slot_above (suc c) f (x ∷ ix) (suc d) h =
    get_elem?-insert_slot_above c f ix d (omega arith)

pub length-insert_slot : (c f : ℕ) (ix : Index) → length (insert_slot c f ix) ≡ length ix
length-insert_slot c f [] = refl
length-insert_slot zero f (x ∷ ix) = ap suc (length-map ix (Option.map suc))
length-insert_slot (suc c) f (x ∷ ix) = ap suc (length-insert_slot c f ix)

-- A new slot keeps the order.
pub IsOrdered-insert_slot :
    (s n c : ℕ) (ix : Index)
    → IsOrdered s ix n
    → get_elem? ix c ≡ some none
    → IsOrdered s (insert_slot c (n - present (drop (suc c) ix)) ix) (suc n)
IsOrdered-insert_slot s n c [] h e = cc
IsOrdered-insert_slot s n zero (none ∷ ix) h e =
    (omega (arith, IsOrdered-present s n ix h), IsOrdered-bump s n ix h)
IsOrdered-insert_slot s n zero (some i ∷ ix) h e = cc
IsOrdered-insert_slot s n (suc c) (none ∷ ix) h e = IsOrdered-insert_slot s n c ix h e
IsOrdered-insert_slot s n (suc c) (some i ∷ ix) h e =
    (h.0, IsOrdered-insert_slot (suc s) n c ix h.1 e)

present-drop-le : (c : ℕ) (ix : Index) → present (drop c ix) ≤ present ix
present-drop-le zero ix = omega arith
present-drop-le (suc c) [] = omega arith
present-drop-le (suc c) (none ∷ ix) = present-drop-le c ix
present-drop-le (suc c) (some i ∷ ix) = omega (arith, present-drop-le c ix)

IsOrdered-ge :
    (s n d i : ℕ) (ix : Index) → IsOrdered s ix n → get_elem? ix d ≡ some (some i) → s ≤ i
IsOrdered-ge s n d i [] h e = cc
IsOrdered-ge s n zero i (none ∷ ix) h e = cc
IsOrdered-ge s n zero i (some j ∷ ix) h e = ground arith
IsOrdered-ge s n (suc d) i (none ∷ ix) h e = IsOrdered-ge s n d i ix h e
IsOrdered-ge s n (suc d) i (some j ∷ ix) h e = omega (arith, IsOrdered-ge (suc s) n d i ix h.1 e)

-- Slots of smaller nibbles lie below `front`, the others do not.
pub IsOrdered-below :
    (s n c d i : ℕ) (ix : Index)
    → IsOrdered s ix n
    → get_elem? ix d ≡ some (some i)
    → d < c
    → i < n - present (drop c ix)
IsOrdered-below s n c d i [] h e lt = cc
IsOrdered-below s n zero d i (x ∷ ix) h e lt = elim lt [ ]
IsOrdered-below s n (suc c) zero i (none ∷ ix) h e lt = cc
IsOrdered-below s n (suc c) zero i (some j ∷ ix) h e lt =
    ground (arith, IsOrdered-present (suc s) n ix h.1, present-drop-le c ix)
IsOrdered-below s n (suc c) (suc d) i (none ∷ ix) h e lt =
    IsOrdered-below s n c d i ix h e (omega arith)
IsOrdered-below s n (suc c) (suc d) i (some j ∷ ix) h e lt =
    IsOrdered-below (suc s) n c d i ix h.1 e (omega arith)

pub IsOrdered-above :
    (s n c d i : ℕ) (ix : Index)
    → IsOrdered s ix n
    → get_elem? ix d ≡ some (some i)
    → c ≤ d
    → n - present (drop c ix) ≤ i
IsOrdered-above s n c d i [] h e le = cc
IsOrdered-above s n zero d i (x ∷ ix) h e le =
    omega (arith, IsOrdered-present s n (x ∷ ix) h, IsOrdered-ge s n d i (x ∷ ix) h e)
IsOrdered-above s n (suc c) zero i (x ∷ ix) h e le = elim le [ ]
IsOrdered-above s n (suc c) (suc d) i (none ∷ ix) h e le =
    IsOrdered-above s n c d i ix h e (omega arith)
IsOrdered-above s n (suc c) (suc d) i (some j ∷ ix) h e le =
    IsOrdered-above (suc s) n c d i ix h.1 e (omega arith)
