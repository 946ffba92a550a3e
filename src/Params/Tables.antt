-- ===== src/Params/Tables.antt =====
-- params/config.go: the tables of the shards and of their nodes, and `RenewShardTable`. `itoa` is
-- `strconv.Itoa`, which writes different numbers differently.
use block_preempt.Prelude.{
  ℕ, zero, suc, ◌+◌, ◌*◌, ◌<◌, ◌≤◌, ◌≡◌, sym, ap, ◌∙◌, ◌≢◌, some_inj, Option, some, List, [], ◌∷◌,
  ◌++◌, ◌==◌, ==_iff, if◌then◌else◌, ◌>>=◌, Bool-cases, inl, inr, arith,
}
use block_preempt.Account.Hex.{Str}
use block_preempt.Account.Table.{lookup, insert, lookup-insert_self, lookup-insert_ne}

-- "127.0.0.1"
abbrev pub base_ip : Str
base_ip = 49 ∷ 50 ∷ 55 ∷ 46 ∷ 48 ∷ 46 ∷ 48 ∷ 46 ∷ 49 ∷ []

abbrev pub start_port : ℕ
start_port = 32000

-- `for s := 0; s < n; s++ { m[key(s)] = value(s) }`
abbrev pub fill : {V : Type 0} → (ℕ → Str) → (ℕ → V) → ℕ → List (Str × V)
fill key value zero = []
fill key value (suc s) = insert (fill key value s) (key s) (value s)

-- The variables that `RenewShardTable` sets; `names` is `ShardTableInt2Str`.
pub record ShardTables : Type 0 where
  pub nodes : List (Str × List (Str × Str))
  pub shards : List (Str × ℕ)
  pub names : ℕ → Str

module _ (itoa : ℕ → Str) where
  -- "S" and "N" before the number.
  abbrev pub shard_name : ℕ → Str
  shard_name s = 83 ∷ itoa s

  abbrev pub node_name : ℕ → Str
  node_name n = 78 ∷ itoa n

  abbrev pub address : ℕ → Str
  address port = base_ip ++ 58 ∷ itoa port

  abbrev pub client_addr : Str
  client_addr = address start_port

  abbrev pub node_port : ℕ → ℕ → ℕ
  node_port s n = start_port + 100 * (s + 1) + n

  unfoldable pub node_table : ℕ → ℕ → List (Str × List (Str × Str))
  node_table num_shards nodes =
      fill shard_name (λ s. fill node_name (λ n. address (node_port s n)) nodes) num_shards

  unfoldable pub shard_table : ℕ → List (Str × ℕ)
  shard_table num_shards = fill shard_name (λ s. s) num_shards

  -- A missing key reads as the empty string.
  unfoldable pub shard_table_int2str : ℕ → ℕ → Str
  shard_table_int2str zero i = []
  shard_table_int2str (suc s) i =
      let rest = shard_table_int2str s i in if s == i then shard_name s else rest

  unfoldable pub renew_shard_table : ℕ → ℕ → ShardTables
  unfolding node_table shard_table shard_table_int2str
  renew_shard_table num_shards num_nodes_per_shard = record {
    nodes = node_table num_shards num_nodes_per_shard;
    shards = shard_table num_shards;
    names = shard_table_int2str num_shards;
  }

  -- The declared tables: here the loop over the nodes has `n <= N_NODES`.
  unfoldable pub initial_tables : ℕ → ℕ → ShardTables
  unfolding node_table shard_table shard_table_int2str
  initial_tables n_shards n_nodes = record {
    nodes = node_table n_shards (n_nodes + 1);
    shards = shard_table n_shards;
    names = shard_table_int2str n_shards;
  }

lookup-fill :
    {V : Type 0} (key : ℕ → Str) (value : ℕ → V)
    → ((a b : ℕ) → key a ≡ key b → a ≡ b)
    → (n s : ℕ) → s < n
    → lookup (fill key value n) (key s) ≡ some (value s)
lookup-fill key value inj zero s h = absurd (omega arith)
lookup-fill key value inj (suc n) s h = elim (Bool-cases (n == s)) [
  | inl e ↦
      let same : n ≡ s = (==_iff n s).0 e in
      rw (sym same) (lookup-insert_self (fill key value n) (key n) (value n))
  | inr e ↦
      let other : n ≢ s = ground arith in
      lookup-insert_ne (fill key value n) (key n) (key s) (value n) (λ q. other (inj n s q))
      ∙ lookup-fill key value inj n s (omega arith)
]

tail_inj : {x : ℕ} {s t : Str} → x ∷ s ≡ x ∷ t → s ≡ t
tail_inj e = cc

module _ (itoa : ℕ → Str) (itoa_inj : (a b : ℕ) → itoa a ≡ itoa b → a ≡ b) where
  names-shard : (n s : ℕ) → s < n → shard_table_int2str itoa n s ≡ shard_name itoa s
  unfolding shard_table_int2str
  names-shard zero s h = absurd (omega arith)
  names-shard (suc n) s h = elim (Bool-cases (n == s)) [
    | inl e ↦ rw e (ap (shard_name itoa) ((==_iff n s).0 e))
    | inr e ↦ rw e (names-shard n s (ground arith))
  ]

  shard_name_inj : (a b : ℕ) → shard_name itoa a ≡ shard_name itoa b → a ≡ b
  shard_name_inj a b e = itoa_inj a b (tail_inj e)

  -- The name that ShardTableInt2Str gives a shard leads back to the shard in ShardTable.
  pub shards-names :
      (num_shards nodes s : ℕ)
      → s < num_shards
      → let t = renew_shard_table itoa num_shards nodes in lookup t.shards (t.names s) ≡ some s
  unfolding renew_shard_table shard_table
  shards-names num_shards nodes s h =
      rw (names-shard num_shards s h)
        (lookup-fill (shard_name itoa) (λ i. i) shard_name_inj num_shards s h)

  -- The entry of node `n` of shard `s`.
  abbrev pub node_of : ShardTables → ℕ → ℕ → Option Str
  node_of t s n = lookup t.nodes (shard_name itoa s) >>= λ nodes. lookup nodes (node_name itoa n)

  node_of-address :
      (num_shards nodes s n : ℕ)
      → s < num_shards
      → n < nodes
      → node_of (renew_shard_table itoa num_shards nodes) s n
        ≡ some (address itoa (node_port itoa s n))
  unfolding renew_shard_table node_table
  node_of-address num_shards nodes s n h h' =
      let row : ℕ → List (Str × Str) =
        λ i. fill (node_name itoa) (λ j. address itoa (node_port itoa i j)) nodes in
      rw (lookup-fill (shard_name itoa) row shard_name_inj num_shards s h) (
        lookup-fill (node_name itoa) (λ j. address itoa (node_port itoa s j))
          (λ a b e. itoa_inj a b (tail_inj e)) nodes n h')

  address_inj : (a b : ℕ) → address itoa a ≡ address itoa b → a ≡ b
  address_inj a b e = let e' : itoa a ≡ itoa b = cc in itoa_inj a b e'

  -- With at most 100 nodes for each shard, every node has an entry in NodeTable, and two nodes with the
  -- same entry are the same node of the same shard; no node has the address of the client.
  pub node_of-distinct :
      (num_shards nodes : ℕ)
      → nodes ≤ 100
      → (s n s' n' : ℕ) → s < num_shards
      → n < nodes
      → s' < num_shards
      → n' < nodes
      → let t = renew_shard_table itoa num_shards nodes in
        (addr : Str) × (node_of t s n ≡ some addr)
        × (addr ≢ client_addr itoa)
        × (node_of t s' n' ≡ some addr → (s ≡ s') × (n ≡ n'))
  node_of-distinct num_shards nodes small s n s' n' h₁ h₂ h₃ h₄ = (
    address itoa (node_port itoa s n),
    node_of-address num_shards nodes s n h₁ h₂,
    λ e. let e' = address_inj (node_port itoa s n) start_port e in absurd (omega (arith, e')),
    λ e.
        let e' =
          address_inj (node_port itoa s' n') (node_port itoa s n)
            (some_inj (sym (node_of-address num_shards nodes s' n' h₃ h₄) ∙ e)) in
        (omega (arith, e'), omega (arith, e')),
  )
