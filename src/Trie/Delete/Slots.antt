-- ===== src/Trie/Delete/Slots.antt =====
-- The index of a branch: taking a slot out undoes putting it in.
use mathlib.Core.Option
use block_preempt.Prelude.{
  ℕ, zero, suc, ◌≤◌, ◌<◌, ◌≡◌, refl, ap, ◌≢◌, Option, none, some, [], ◌∷◌, get_elem?, set, map,
  drop, replicate, arith,
}
use block_preempt.Trie.Node.{Index}
use block_preempt.Trie.Branch.{present, insert_slot}
use block_preempt.Trie.Delete.{first_nibble, lower}

lower_small : (f k : ℕ) → k ≤ f → lower f (some k) ≡ some k
lower_small f k h = ground arith

lower-suc : (f k : ℕ) → f ≤ k → lower f (some (suc k)) ≡ some k
lower-suc f k h = ground arith

map-lower-suc :
    (f : ℕ) (ix : Index)
    → ((d k : ℕ) → get_elem? ix d ≡ some (some k) → f ≤ k)
    → map (lower f) (map (Option.map suc) ix) ≡ ix
map-lower-suc f [] h = refl
map-lower-suc f (none ∷ ix) h = ap (λ l. none ∷ l) (map-lower-suc f ix (λ d k e. h (suc d) k e))
map-lower-suc f (some i ∷ ix) h =
    rw (lower-suc f i (h 0 i refl)) (rw (map-lower-suc f ix (λ d k e. h (suc d) k e)) refl)

-- Entries in front of the slot lie below its position, and those behind it do not.
pub set-insert_slot :
    (c f : ℕ) (ix : Index)
    → get_elem? ix c ≡ some none
    → ((d k : ℕ) → d < c → get_elem? ix d ≡ some (some k) → k ≤ f)
    → ((d k : ℕ) → c < d → get_elem? ix d ≡ some (some k) → f ≤ k)
    → set (map (lower f) (insert_slot c f ix)) c none ≡ ix
set-insert_slot c f [] e below above = cc
set-insert_slot zero f (none ∷ ix) e below above =
    ap (λ l. none ∷ l) (map-lower-suc f ix (λ d k q. above (suc d) k (omega arith) q))
set-insert_slot zero f (some i ∷ ix) e below above = cc
set-insert_slot (suc c) f (none ∷ ix) e below above =
    ap (λ l. none ∷ l)
      (set-insert_slot c f ix e (λ d k lt q. below (suc d) k (omega arith) q)
        (λ d k lt q. above (suc d) k (omega arith) q))
set-insert_slot (suc c) f (some i ∷ ix) e below above =
    rw (lower_small f i (below 0 i (omega arith) refl)) (
      ap (λ l. some i ∷ l)
        (set-insert_slot c f ix e (λ d k lt q. below (suc d) k (omega arith) q)
          (λ d k lt q. above (suc d) k (omega arith) q)))

-- An index with one slot, `a`.
abbrev pub single : ℕ → ℕ → Index
single n a = insert_slot a 0 (replicate n none)

bump_none : (n : ℕ) → map (Option.map suc) (replicate n none) ≡ replicate n none
bump_none zero = refl
bump_none (suc n) = ap (λ l. none ∷ l) (bump_none n)

get_replicate : (n d k : ℕ) → get_elem? (replicate n none) d ≢ some (some k)
get_replicate zero d k e = cc
get_replicate (suc n) zero k e = cc
get_replicate (suc n) (suc d) k e = get_replicate n d k e

pub single-only : (n a d k : ℕ) → get_elem? (single n a) d ≡ some (some k) → (d ≡ a) × (k ≡ 0)
single-only zero a d k e = cc
single-only (suc n) zero zero k e = (refl, cc)
single-only (suc n) zero (suc d) k e = absurd (get_replicate n d k (rw (bump_none n) at e))
single-only (suc n) (suc a) zero k e = cc
single-only (suc n) (suc a) (suc d) k e = let (p, q) = single-only n a d k e in (ap suc p, q)

pub replicate-free : (n d : ℕ) → d < n → get_elem? {A = Option ℕ} (replicate n none) d ≡ some none
replicate-free zero d lt = elim lt [ ]
replicate-free (suc n) zero lt = refl
replicate-free (suc n) (suc d) lt = replicate-free n d (omega arith)

pub single-free : (n a d : ℕ) → d < n → d ≢ a → get_elem? (single n a) d ≡ some none
single-free zero a d lt ne = elim lt [ ]
single-free (suc n) zero zero lt ne = absurd (ne refl)
single-free (suc n) zero (suc d) lt ne = rw (bump_none n) (replicate-free n d (omega arith))
single-free (suc n) (suc a) zero lt ne = refl
single-free (suc n) (suc a) (suc d) lt ne = single-free n a d (omega arith) (λ e. ne (ap suc e))

pub present-replicate : (n d : ℕ) → present (drop d (replicate n none)) ≡ 0
present-replicate zero zero = refl
present-replicate zero (suc d) = refl
present-replicate (suc n) zero = present-replicate n zero
present-replicate (suc n) (suc d) = present-replicate n d

pub present_behind : (n a d : ℕ) → a < n → a < d → present (drop d (single n a)) ≡ 0
present_behind zero a d lt l = elim lt [ ]
present_behind (suc n) a zero lt l = elim l [ ]
present_behind (suc n) zero (suc d) lt l = rw (bump_none n) (present-replicate n d)
present_behind (suc n) (suc a) (suc d) lt l = present_behind n a d (omega arith) (omega arith)

pub present_ahead : (n a d : ℕ) → a < n → d ≤ a → present (drop d (single n a)) ≡ 1
present_ahead zero a d lt l = elim lt [ ]
present_ahead (suc n) zero zero lt l = rw (bump_none n) (ap suc (present-replicate n 0))
present_ahead (suc n) zero (suc d) lt l = elim l [ ]
present_ahead (suc n) (suc a) zero lt l = present_ahead n a 0 (omega arith) (omega arith)
present_ahead (suc n) (suc a) (suc d) lt l = present_ahead n a d (omega arith) (omega arith)

pub first_nibble-single : (n a : ℕ) → a < n → first_nibble (single n a) ≡ some a
first_nibble-single zero a lt = elim lt [ ]
first_nibble-single (suc n) zero lt = refl
first_nibble-single (suc n) (suc a) lt =
    rw (first_nibble-single n a (omega arith)) (ap some (omega arith))
