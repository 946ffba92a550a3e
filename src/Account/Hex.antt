-- ===== src/Account/Hex.antt =====
-- Go's strings, as their bytes, and `EncodeToString` and `DecodeString` of encoding/hex.
use block_preempt.Prelude.{
  ℕ, ◌+◌, ◌-◌, ◌*◌, ◌/◌, ◌%◌, ◌<◌, ◌≡◌, refl, sym, ◌∙◌, ◌≢◌, Bool, true, false, ◌&&◌, Option, none,
  some, [], ◌∷◌, ltb, leb, ◌==◌, if◌then◌else◌, inl, inr, Bool-cases, arith,
}
use block_preempt.Trie.Nibbles.{Bytes}
use block_preempt.Trie.Nibbles.RoundTrip.{AllBelow}

abbrev pub Str : Type 0
Str = Bytes

abbrev pub str_eq : Str → Str → Bool
str_eq [] [] = true
str_eq [] (y ∷ ys) = false
str_eq (x ∷ xs) [] = false
str_eq (x ∷ xs) (y ∷ ys) = (x == y) && str_eq xs ys

pub str_eq_refl : (s : Str) → str_eq s s ≡ true
str_eq_refl [] = refl
str_eq_refl (x ∷ xs) = ground (arith, str_eq_refl xs)

true≢false : true ≢ false
true≢false e = cc

pub str_eq_sound : (s t : Str) → str_eq s t ≡ true → s ≡ t
str_eq_sound [] [] h = refl
str_eq_sound [] (y ∷ ys) h = cc
str_eq_sound (x ∷ xs) [] h = cc
str_eq_sound (x ∷ xs) (y ∷ ys) h = ground (arith, str_eq_sound xs ys)

pub str_eq-false : (a b : Str) → str_eq a b ≡ false → a ≢ b
str_eq-false a b e q = true≢false (sym (str_eq_refl b) ∙ rw q at e)

pub str_eq_ne : (a b : Str) → a ≢ b → str_eq a b ≡ false
str_eq_ne a b ne = elim (Bool-cases (str_eq a b)) [
  | inl e ↦ absurd (ne (str_eq_sound a b e))
  | inr e ↦ e
]

-- The table "0123456789abcdef".
abbrev pub hex_digit : ℕ → ℕ
hex_digit d = if ltb d 10 then 48 + d else 87 + d

unfoldable pub hex : Bytes → Str
hex [] = []
hex (b ∷ bs) = hex_digit (b / 16) ∷ hex_digit (b % 16) ∷ hex bs

-- A digit in either case.
abbrev pub from_hex_char : ℕ → Option ℕ
from_hex_char c =
    if leb 48 c && leb c 57
    then some (c - 48)
    else if leb 97 c && leb c 102
    then some (c - 87)
    else if leb 65 c && leb c 70
    then some (c - 55)
    else none

abbrev pub push_byte : Option ℕ → Option ℕ → Bytes → Bytes
push_byte none b rest = []
push_byte (some a) none rest = []
push_byte (some a) (some b) rest = (a * 16 + b) ∷ rest

-- The first result of `DecodeString`, whose error the callers drop: the bytes before the first bad one.
unfoldable pub decode_string : Str → Bytes
decode_string [] = []
decode_string (a ∷ []) = []
decode_string (a ∷ b ∷ rest) = push_byte (from_hex_char a) (from_hex_char b) (decode_string rest)

from_hex_char-hex_digit : (d : ℕ) → d < 16 → from_hex_char (hex_digit d) ≡ some d
from_hex_char-hex_digit d h = ground arith

join :
    (b : ℕ) (s : Str) {bs : Bytes}
    → decode_string s ≡ bs
    → (b / 16 * 16 + b % 16) ∷ decode_string s ≡ b ∷ bs
join b s e = ground (arith, e)

-- Decoding the text of a byte string gives the byte string back.
pub decode_string-hex : (bs : Bytes) → AllBelow 256 bs → decode_string (hex bs) ≡ bs
unfolding hex decode_string
decode_string-hex [] h = refl
decode_string-hex (b ∷ bs) (hb, hs) = rw (from_hex_char-hex_digit (b / 16) (omega arith)) (
    rw (from_hex_char-hex_digit (b % 16) (omega arith)) (join b (hex bs) (decode_string-hex bs hs)))
