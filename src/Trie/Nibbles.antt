-- ===== src/Trie/Nibbles.antt =====
-- trie/trie_nibbles.go: keys as sequences of nibbles. A `[]byte` is a list of numbers below 256; an
-- `error` is `none`.
pub mod Prefix
pub mod RoundTrip
use block_preempt.Prelude.{
  ℕ, suc, ◌+◌, ◌*◌, ◌/◌, ◌%◌, ◌^◌, Bool, Option, none, some, List, [], ◌∷◌, ◌++◌, length, ltb, ◌==◌,
  if◌then◌else◌, ◌>>=◌,
}

abbrev pub Bytes : Type 0
Bytes = List ℕ

-- `n >= 0` holds of every byte.
unfoldable pub is_nibble : ℕ → Bool
is_nibble nibble = ltb nibble 16

unfoldable pub from_nibble_byte : ℕ → Option ℕ
unfolding is_nibble
from_nibble_byte n = if is_nibble n then some n else none

unfoldable pub from_nibble_bytes : Bytes → Option Bytes
unfolding from_nibble_byte
from_nibble_bytes [] = some []
from_nibble_bytes (n ∷ nibbles) = do
  nibble ← from_nibble_byte n
  ns ← from_nibble_bytes nibbles
  some (nibble ∷ ns)

unfoldable pub from_byte : ℕ → Bytes
from_byte b = b / 2 ^ 4 ∷ b % 16 ∷ []

unfoldable pub from_bytes : Bytes → Bytes
unfolding from_byte
from_bytes [] = []
from_bytes (b ∷ bs) = from_byte b ++ from_bytes bs

-- `prefixed[0] += 2` wraps as a byte.
add_leaf_flag : Bytes → Bytes
add_leaf_flag [] = []
add_leaf_flag (p ∷ ps) = (p + 2) % 256 ∷ ps

unfoldable pub to_prefixed : Bytes → Bool → Bytes
unfolding add_leaf_flag
to_prefixed ns is_leaf_node =
    let prefixed = (if ltb 0 (length ns % 2) then 1 ∷ [] else 0 ∷ 0 ∷ []) ++ ns in
    if is_leaf_node then add_leaf_flag prefixed else prefixed

-- `ns[i]<<4` wraps as a byte. On an odd length `ns[i+1]` is out of range, and the code panics.
unfoldable pub to_bytes : Bytes → Option Bytes
to_bytes [] = some []
to_bytes (hi ∷ []) = none
to_bytes (hi ∷ lo ∷ ns) = do buf ← to_bytes ns; some ((hi * 2 ^ 4 % 256 + lo) % 256 ∷ buf)

unfoldable pub prefix_matched_len : Bytes → Bytes → ℕ
prefix_matched_len [] node2 = 0
prefix_matched_len (n1 ∷ node1) [] = 0
prefix_matched_len (n1 ∷ node1) (n2 ∷ node2) =
    if n1 == n2 then suc (prefix_matched_len node1 node2) else 0
