-- ===== src/Account/Examples.antt =====
-- Accounts on small inputs.
use block_preempt.Prelude.{◌≡◌, false, none, [], ◌∷◌, arith}
use block_preempt.Prelude.Int.{pos}
use block_preempt.Params.{ChainConfig, config}
use block_preempt.Account.Hex.{Str, hex, decode_string, decode_string-hex}
use block_preempt.Account.Shards.{Shards, enter}

abbrev two_shards : ChainConfig
two_shards = config (83 ∷ 48 ∷ []) (78 ∷ 48 ∷ []) 2

decode_string-hex_example : decode_string (hex (1 ∷ 171 ∷ [])) ≡ 1 ∷ 171 ∷ []
decode_string-hex_example = decode_string-hex (1 ∷ 171 ∷ []) (omega arith, (omega arith, tt))

abbrev no_shards : Shards
no_shards = record { account2shard = λ a. none; account_in_own_shard = λ a. false }

-- "00003"
abbrev addr : Str
addr = 48 ∷ 48 ∷ 48 ∷ 48 ∷ 51 ∷ []

abbrev with_addr : Shards
with_addr = enter (pos 1) addr (pos 1) no_shards
