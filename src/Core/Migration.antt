-- ===== src/Core/Migration.antt =====
-- core/txmig1.go, txmig2.go, txann.go, txns.go and proofdb.go: the four transactions of a migration, each
-- with the proof of the one before it. A pointer that may be nil is an option.
use block_preempt.Prelude.{Option, List, [], ◌∷◌, ◌++◌}
use block_preempt.Prelude.Int.{ℤ}
use block_preempt.Trie.Nibbles.{Bytes}
use block_preempt.Account.Hex.{Str}
use block_preempt.Account.State.{AccountState}

abbrev pub ProofDb : Type 0
ProofDb = List (Bytes × Bytes)

unfoldable pub put : Bytes → Bytes → ProofDb → ProofDb
put key value pdb = pdb ++ (key, value) ∷ []

pub record TxMig1 : Type 0 where
  pub address : Str
  pub fromshard_id : ℤ
  pub toshard_id : ℤ
  pub request_time : ℤ
  pub commit_time : ℤ
  pub id : ℤ

pub record TxMig2 : Type 0 where
  pub txmig1 : Option TxMig1
  pub mp_mig1 : Option ProofDb
  pub state : Option AccountState
  pub mp_state : Option ProofDb
  pub h : ℤ
  pub address : Str
  pub value : ℤ

pub record TxAnn : Type 0 where
  pub txmig2 : Option TxMig2
  pub mp_mig2 : Option ProofDb
  pub state : Option AccountState
  pub mp_state : Option ProofDb
  pub h : ℤ
  pub address : Str
  pub toshard_id : ℤ

pub record TxNs : Type 0 where
  pub txann : Option TxAnn
  pub mp_ann : Option ProofDb
  pub state : Option AccountState
  pub mp_state : Option ProofDb
  pub h : ℤ
  pub address : Str
  pub change : ℤ
