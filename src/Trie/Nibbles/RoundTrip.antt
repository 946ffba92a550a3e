-- ===== src/Trie/Nibbles/RoundTrip.antt =====
-- Bytes to nibbles and back.
use block_preempt.Prelude.{
  ℕ, ◌+◌, ◌*◌, ◌/◌, ◌%◌, ◌^◌, ◌<◌, ◌≡◌, refl, ap, inl, inr, some, [], ◌∷◌, length, arith,
  Option-cases,
}
use block_preempt.Trie.Nibbles.{Bytes, is_nibble, from_nibble_bytes, from_bytes, to_bytes}

abbrev pub AllBelow : ℕ → Bytes → Type 0
AllBelow n [] = Unit
AllBelow n (b ∷ bs) = (b < n) × AllBelow n bs

byte_of_nibbles : (b : ℕ) → b < 256 → ((b / 2 ^ 4) * 2 ^ 4 % 256 + b % 16) % 256 ≡ b
byte_of_nibbles b h = omega arith

-- Bytes below 256 come back from their nibbles.
pub to_bytes-from_bytes : (bs : Bytes) → AllBelow 256 bs → to_bytes (from_bytes bs) ≡ some bs
unfolding to_bytes from_bytes
to_bytes-from_bytes [] h = refl
to_bytes-from_bytes (b ∷ bs) h = rw (to_bytes-from_bytes bs h.1) (rw (byte_of_nibbles b h.0))

pub from_bytes-AllBelow : (bs : Bytes) → AllBelow 256 bs → AllBelow 16 (from_bytes bs)
unfolding from_bytes
from_bytes-AllBelow [] h = tt
from_bytes-AllBelow (b ∷ bs) h = (omega arith, (omega arith, from_bytes-AllBelow bs h.1))

pub length-from_bytes : (bs : Bytes) → length (from_bytes bs) ≡ 2 * length bs
unfolding from_bytes
length-from_bytes [] = refl
length-from_bytes (b ∷ bs) = omega (arith, length-from_bytes bs)

-- Different keys have different nibbles.
pub from_bytes_injective :
    (bs cs : Bytes) → AllBelow 256 bs → AllBelow 256 cs → from_bytes bs ≡ from_bytes cs → bs ≡ cs
from_bytes_injective bs cs hb hc e =
    cc (to_bytes-from_bytes bs hb, to_bytes-from_bytes cs hc, ap to_bytes e)

-- `FromNibbleBytes` accepts exactly the sequences of nibbles, and returns its input.
pub from_nibble_bytes_accepts : (bs : Bytes) → AllBelow 16 bs → from_nibble_bytes bs ≡ some bs
unfolding from_nibble_bytes is_nibble
from_nibble_bytes_accepts [] h = refl
from_nibble_bytes_accepts (b ∷ bs) h = ground (arith, from_nibble_bytes_accepts bs h.1)

pub from_nibble_bytes_sound :
    (bs ns : Bytes) → from_nibble_bytes bs ≡ some ns → (ns ≡ bs) × AllBelow 16 bs
unfolding from_nibble_bytes is_nibble
from_nibble_bytes_sound [] ns h = (cc, tt)
from_nibble_bytes_sound (b ∷ bs) ns h = elim (Option-cases (from_nibble_bytes bs)) [
  | inl e ↦ ground arith
  | inr (ms, e) ↦ ground (arith, from_nibble_bytes_sound bs ms e)
]
