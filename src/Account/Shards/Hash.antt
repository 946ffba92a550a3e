-- ===== src/Account/Shards/Hash.antt =====
-- The shard of an address that has no entry in the table.
use block_preempt.Prelude.{
  ℕ, zero, suc, ◌+◌, ◌-◌, ◌*◌, ◌/◌, ◌%◌, ◌≤◌, ◌<◌, ◌≡◌, refl, ap, ◌∙◌, false, some, [], ◌∷◌, length,
  drop, length-drop, ltb, ◌==◌, arith,
}
use block_preempt.Prelude.Int.{pos}
use block_preempt.Params.{ChainConfig}
use block_preempt.Trie.Nibbles.{Bytes}
use block_preempt.Trie.Nibbles.RoundTrip.{AllBelow}
use block_preempt.Account.Hex.{Str, hex, hex_digit, from_hex_char}
use block_preempt.Account.Shards.{parse_digits, parse_int, hash_shard}

AllHex : Str → Type 0
AllHex [] = Unit
AllHex (ch ∷ rest) = ((d : ℕ) × (d < 16) × (ch ≡ hex_digit d)) × AllHex rest

AllHex-hex : (bs : Bytes) → AllBelow 256 bs → AllHex (hex bs)
unfolding hex AllHex
AllHex-hex [] h = tt
AllHex-hex (b ∷ bs) (hb, hs) =
    ((b / 16, omega arith, refl), ((b % 16, omega arith, refl), AllHex-hex bs hs))

AllHex-drop : (n : ℕ) (s : Str) → AllHex s → AllHex (drop n s)
unfolding AllHex
AllHex-drop zero s h = h
AllHex-drop (suc n) [] h = h
AllHex-drop (suc n) (ch ∷ s) h = AllHex-drop n s h.1

length-hex : (bs : Bytes) → length (hex bs) ≡ 2 * length bs
unfolding hex
length-hex [] = refl
length-hex (b ∷ bs) = omega (arith, length-hex bs)

from_hex_char_digit : (d : ℕ) → d < 16 → from_hex_char (hex_digit d) ≡ some d
from_hex_char_digit d h = ground arith

parse_digits-AllHex : (s : Str) (acc : ℕ) → AllHex s → (n : ℕ) × (parse_digits acc s ≡ some n)
unfolding AllHex
parse_digits-AllHex [] acc h = (acc, refl)
parse_digits-AllHex (ch ∷ s) acc ((d, lt, e), hs) =
    let (n, q) = parse_digits-AllHex s (acc * 16 + d) hs in
    (n, rw e (rw (from_hex_char_digit d lt) q))

not_sign : (d : ℕ) → d < 16 → (((hex_digit d == 45) ≡ false) × ((hex_digit d == 43) ≡ false))
not_sign d h = (ground arith, ground arith)

parse_int-AllHex : (s : Str) → 0 < length s → AllHex s → (n : ℕ) × (parse_int s ≡ some (pos n))
unfolding AllHex
parse_int-AllHex [] lt h = absurd (omega arith)
parse_int-AllHex (ch ∷ s) lt ((d, l, e), hs) =
    let (n, q) = parse_digits-AllHex (ch ∷ s) 0 ((d, l, e), hs) in
    let (m, p) = not_sign d l in
    let m' : (ch == 45) ≡ false = ap (λ x. x == 45) e ∙ m in
    let p' : (ch == 43) ≡ false = ap (λ x. x == 43) e ∙ p in (n, rw m' (rw p' (rw q refl)))

-- For the text of an address of three bytes or more, and a number of shards that is not zero, the hash
-- does not panic, and the shard is one of those that there are.
pub hash_shard_bound :
    (c : ChainConfig) (bs : Bytes)
    → AllBelow 256 bs
    → 3 ≤ length bs
    → 0 < c.shard_num
    → (k : ℕ) × (k < c.shard_num) × (hash_shard c (hex bs) ≡ some (pos k))
unfolding hash_shard
hash_shard_bound c bs h len hm =
    let s = drop (length (hex bs) - 5) (hex bs) in
    let long : ltb (length (hex bs)) 5 ≡ false = ground (arith, length-hex bs) in
    let some_digits : 0 < length s =
      omega (arith, length-hex bs, length-drop (length (hex bs) - 5) (hex bs)) in
    let (n, q) =
      parse_int-AllHex s some_digits
        (AllHex-drop (length (hex bs) - 5) (hex bs) (AllHex-hex bs h)) in
    let nonzero : (c.shard_num == 0) ≡ false = ground arith in
    (n % c.shard_num, omega arith, rw long (rw q (rw nonzero refl)))
