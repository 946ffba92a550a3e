-- ===== src/Params/Examples.antt =====
-- The tables of two shards with three nodes each.
use block_preempt.Prelude.{ℕ, ◌≡◌, ◌≢◌, some, [], ◌∷◌, arith}
use block_preempt.Account.Hex.{Str}
use block_preempt.Params.Tables.{client_addr, renew_shard_table, node_of, node_of-distinct}

-- A number as one character, in place of its digits.
abbrev sign : ℕ → Str
sign n = n ∷ []

sign_inj : (a b : ℕ) → sign a ≡ sign b → a ≡ b
sign_inj a b e = cc

node_of-distinct_example :
    (addr : Str) × (node_of sign sign_inj (renew_shard_table sign 2 3) 1 2 ≡ some addr)
    × (addr ≢ client_addr sign)
    × (node_of sign sign_inj (renew_shard_table sign 2 3) 1 0 ≡ some addr
        → (◌≡◌ {A = ℕ} 1 1) × (◌≡◌ {A = ℕ} 2 0))
node_of-distinct_example =
    node_of-distinct sign sign_inj 2 3 (omega arith) 1 2 1 0 (omega arith) (omega arith)
      (omega arith) (omega arith)
