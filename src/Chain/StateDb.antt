-- ===== src/Chain/StateDb.antt =====
-- The state trie of go-ethereum (`Get` and `Update`) and the gob encoding of an account, which are not
-- code of the repository: the names that chain/blockchain.go uses, and what it relies on.
use block_preempt.Prelude.{◌≡◌, refl, ◌≢◌, Option, none, some}
use block_preempt.Trie.Nibbles.{Bytes}
use block_preempt.Account.State.{AccountState}

pub record StateDb : Type 1 where
  pub S : Type 0
  pub get : S → Bytes → Option Bytes
  pub update : S → Bytes → Bytes → S
  pub encode : AccountState → Bytes
  pub decode : Bytes → AccountState
  -- `DecodeAccountState` inverts `Encode`.
  pub decode-encode : (a : AccountState) → decode (encode a) ≡ a
  -- `Get` after `Update` finds the value, which no encoding of an account is too short for.
  pub get-update_self :
      (s : S) (k : Bytes) (a : AccountState) → get (update s k (encode a)) k ≡ some (encode a)
  -- `Update` leaves the other keys alone.
  pub get-update_ne : (s : S) (k j : Bytes) (v : Bytes) → k ≢ j → get (update s k v) j ≡ get s j

module _ (db : StateDb) where
  abbrev pub decode_option : Option Bytes → Option AccountState
  decode_option none = none
  decode_option (some b) = some (db.decode b)

  -- `st.Get` and, unless it is nil, `DecodeAccountState`.
  abbrev pub read : db.S → Bytes → Option AccountState
  read s k = decode_option (db.get s k)

  abbrev pub write : db.S → Bytes → AccountState → db.S
  write s k a = db.update s k (db.encode a)

  pub read-write_self : (s : db.S) (k : Bytes) (a : AccountState) → read (write s k a) k ≡ some a
  read-write_self s k a = rw (db.get-update_self s k a) (rw (db.decode-encode a) refl)

  pub read-write_ne :
      (s : db.S) (k j : Bytes) (a : AccountState) → k ≢ j → read (write s k a) j ≡ read s j
  read-write_ne s k j a ne = rw (db.get-update_ne s k j (db.encode a) ne) refl
