-- ===== src/Account/Shards.antt =====
-- account/account_state.go: `Addr2Shard`, and `Addr2Shard` and `Min` of utils/utils.go; none is a panic.
-- `own` is `params.ShardTable[params.Config.ShardID]`. The table is locked for the whole of a call.
pub mod Hash
pub mod Table
use block_preempt.Prelude.{
  ℕ, zero, suc, ◌+◌, ◌-◌, ◌*◌, ◌/◌, ◌%◌, ◌≤◌, ◌<◌, ◌≡◌, refl, sym, ap, ◌∙◌, ◌≢◌, Bool, true, false,
  ◌&&◌, Option, none, some, List, [], ◌∷◌, length, drop, length-drop, ltb, leb, ◌==◌, if◌then◌else◌,
  ◌>>=◌, some_inj, >>=-eq-some, inl, inr, Bool-cases, arith,
}
use block_preempt.Prelude.Int.{ℤ, pos, negsuc}
use block_preempt.Params.{ChainConfig}
use block_preempt.Trie.Nibbles.{Bytes}
use block_preempt.Trie.Nibbles.RoundTrip.{AllBelow}
use block_preempt.Account.Hex.{Str, str_eq, str_eq_refl, str_eq_ne, hex, hex_digit, from_hex_char}

pub record Shards : Type 0 where
  pub account2shard : Str → Option ℤ
  pub account_in_own_shard : Str → Bool

-- `strconv.ParseInt(s, 16, 32)` behind the sign. Five digits are within 32 bits.
abbrev pub parse_digits : ℕ → Str → Option ℕ
parse_digits acc [] = some acc
parse_digits acc (ch ∷ rest) = from_hex_char ch >>= λ d. parse_digits (acc * 16 + d) rest

abbrev pub parse_nonempty : Str → Option ℕ
parse_nonempty [] = none
parse_nonempty (ch ∷ rest) = parse_digits 0 (ch ∷ rest)

abbrev pub neg : ℕ → ℤ
neg zero = pos 0
neg (suc n) = negsuc n

abbrev pub parse_int : Str → Option ℤ
parse_int [] = none
parse_int (ch ∷ rest) =
    if ch == 45
    then (parse_nonempty rest >>= λ n. some (neg n))
    else if ch == 43
    then (parse_nonempty rest >>= λ n. some (pos n))
    else parse_digits 0 (ch ∷ rest) >>= λ n. some (pos n)

-- `int(num) % m`, which truncates toward zero and panics for zero.
abbrev pub rem : ℤ → ℕ → Option ℤ
rem (pos n) m = if m == 0 then none else some (pos (n % m))
rem (negsuc n) m = if m == 0 then none else some (neg (suc n % m))

-- `senderAddr[len(senderAddr)-5:]`
abbrev pub last5 : Str → Option Str
last5 addr = if ltb (length addr) 5 then none else some (drop (length addr - 5) addr)

-- `utils.Addr2Shard`, and what `account.Addr2Shard` computes for an address that has no entry.
unfoldable pub hash_shard : ChainConfig → Str → Option ℤ
hash_shard c addr = last5 addr >>= λ s. parse_int s >>= λ num. rem num c.shard_num

abbrev pub eq_ℤ : ℤ → ℤ → Bool
eq_ℤ (pos a) (pos b) = a == b
eq_ℤ (pos a) (negsuc b) = false
eq_ℤ (negsuc a) (pos b) = false
eq_ℤ (negsuc a) (negsuc b) = a == b

abbrev pub assign {ℓ} : {A : Type ℓ} → (Str → A) → Str → A → Str → A
assign f key v j = if str_eq key j then v else f j

abbrev pub enter : ℤ → Str → ℤ → Shards → Shards
enter own addr shard_id t = record {
  account2shard = assign t.account2shard addr (some shard_id);
  account_in_own_shard =
      if eq_ℤ shard_id own then assign t.account_in_own_shard addr true else t.account_in_own_shard;
}

abbrev pub lookup_or_enter : ChainConfig → ℤ → Str → Shards → Option ℤ → Option (ℤ × Shards)
lookup_or_enter c own addr t (some shard_id) = some (shard_id, t)
lookup_or_enter c own addr t none =
    hash_shard c addr >>= λ shard_id. some (shard_id, enter own addr shard_id t)

unfoldable pub addr2shard : ChainConfig → ℤ → Str → Shards → Option (ℤ × Shards)
addr2shard c own addr t = lookup_or_enter c own addr t (t.account2shard addr)

unfoldable pub min : ℕ → ℕ → ℕ
min a b = if ltb a b then a else b
