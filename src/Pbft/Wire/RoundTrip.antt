-- ===== src/Pbft/Wire/RoundTrip.antt =====
-- The frame of a message: what is joined is split again, and reaches its handler.
use native.Mathlib.Numerals.{unary_clauses}
use block_preempt.Prelude.{
  ℕ, zero, suc, ◌+◌, ◌-◌, ◌≤◌, ◌<◌, ◌≡◌, refl, sym, ap, ◌≢◌, true, false, Option, none, some, [],
  ◌∷◌, ◌++◌, length, take, drop, set, replicate, ltb, ◌>>=◌, ltb→lt, lt→ltb, Bool-cases, inl, inr,
  ◌∙◌, length-append, length-replicate, length-set, arith, ◌↔◌, bind_then,
}
use block_preempt.Trie.Nibbles.{Bytes}
use block_preempt.Account.Hex.{Str}
use block_preempt.Pbft.Wire.{
  Command, prefix_cmd_length, text, write_cmd, joint_message, drop_zeros, split_message, cases,
  find_case, handle_request, reply, ll_block, pending_txs, num_of_migrated_txs_addrs,
  unchanged_state,
}

-- A command without a zero byte, as Go's constants are.
abbrev pub NonZero : Str → Type 0
NonZero [] = Unit
NonZero (v ∷ vs) = (v ≢ 0) × NonZero vs

append_assoc : (a b c : Bytes) → (a ++ b) ++ c ≡ a ++ (b ++ c)
append_assoc [] b c = refl
append_assoc (x ∷ a) b c = ap (λ t. x ∷ t) (append_assoc a b c)

set_at :
    (before : Bytes) (x v : ℕ) (after : Bytes)
    → set (before ++ (x ∷ after)) (length before) v ≡ (before ++ (v ∷ [])) ++ after
set_at [] x v after = refl
set_at (y ∷ before) x v after = ap (λ t. y ∷ t) (set_at before x v after)

length_snoc : (before : Bytes) (v : ℕ) → length (before ++ (v ∷ [])) ≡ suc (length before)
length_snoc before v = omega (arith, length-append before (v ∷ []))

-- Writing a command that fits behind what is written.
write_cmd-fits :
    (before : Bytes) (n : ℕ) (cmd : Str)
    → length cmd ≤ n
    → write_cmd (before ++ replicate n 0) (length before) cmd
      ≡ some (before ++ (cmd ++ replicate (n - length cmd) 0))
unfolding write_cmd
write_cmd-fits before n [] h = simp unary_clauses refl
write_cmd-fits before zero (v ∷ vs) h = absurd (omega arith)
write_cmd-fits before (suc n) (v ∷ vs) h =
    let ih = write_cmd-fits (before ++ (v ∷ [])) n vs (omega arith) in
    let room : ltb (length before) (length (before ++ replicate (suc n) 0)) ≡ true =
      lt→ltb (length before) (length (before ++ replicate (suc n) 0))
        (omega (arith, length-append before (replicate (suc n) 0))) in
    let less : suc n - suc (length vs) ≡ n - length vs = omega arith in
    rw room (
      rw less (
        rw (set_at before 0 v (replicate n 0)) (
          rw (← length_snoc before v)
            (ih ∙ ap some (append_assoc before (v ∷ []) (vs ++ replicate (n - length vs) 0))))))

-- Writing a command that does not fit.
write_cmd-overruns :
    (b : Bytes) (i : ℕ) (cmd : Str)
    → length b < i + length cmd
    → i ≤ length b
    → write_cmd b i cmd ≡ none
unfolding write_cmd
write_cmd-overruns b i [] h le = absurd (omega arith)
write_cmd-overruns b i (v ∷ vs) h le = elim (Bool-cases (ltb i (length b))) [
  | inl e ↦ rw e (
      write_cmd-overruns (set b i v) (suc i) vs (omega (arith, length-set b i v))
        (omega (arith, length-set b i v, ltb→lt i (length b) e)))
  | inr e ↦ rw e refl
]

drop_zeros-replicate : (n : ℕ) → drop_zeros (replicate n 0) ≡ []
unfolding drop_zeros
drop_zeros-replicate zero = refl
drop_zeros-replicate (suc n) = drop_zeros-replicate n

drop_zeros-append : (cmd : Str) (n : ℕ) → NonZero cmd → drop_zeros (cmd ++ replicate n 0) ≡ cmd
unfolding drop_zeros
drop_zeros-append [] n h = drop_zeros-replicate n
drop_zeros-append (v ∷ vs) n (h, hs) = ground (arith, drop_zeros-append vs n hs)

take-append : (a b : Bytes) → take (length a) (a ++ b) ≡ a
take-append [] b = refl
take-append (x ∷ a) b = ap (λ t. x ∷ t) (take-append a b)

drop-append : (a b : Bytes) → drop (length a) (a ++ b) ≡ b
drop-append [] b = refl
drop-append (x ∷ a) b = drop-append a b

abbrev pub frame : Str → Bytes
frame cmd = cmd ++ replicate (prefix_cmd_length - length cmd) 0

length-frame : (cmd : Str) → length cmd ≤ prefix_cmd_length → length (frame cmd) ≡ prefix_cmd_length
length-frame cmd h = omega (
  arith,
  length-append cmd (replicate (prefix_cmd_length - length cmd) 0),
  length-replicate {A = ℕ} (prefix_cmd_length - length cmd) 0,
)

joint_message-fits :
    (cmd : Str) (content : Bytes)
    → length cmd ≤ prefix_cmd_length
    → joint_message cmd content ≡ some (frame cmd ++ content)
unfolding joint_message
joint_message-fits cmd content h = rw (write_cmd-fits [] prefix_cmd_length cmd h) refl

split_message-frame :
    (b content : Bytes)
    → length b ≡ prefix_cmd_length
    → split_message (b ++ content) ≡ some (drop_zeros b, content)
unfolding split_message
split_message-frame b content e =
    let long : ltb (length (b ++ content)) prefix_cmd_length ≡ false =
      ground (arith, length-append b content) in
    rw long (rw (← e) (rw (take-append b content) (rw (drop-append b content) refl)))

-- A command of at most twelve bytes, none of them zero, and any content: jointMessage does not panic, and splitMessage of its message gives both back.
pub split_message-joint_message :
    (cmd : Str) (content : Bytes)
    → length cmd ≤ prefix_cmd_length
    → NonZero cmd
    → (joint_message cmd content >>= split_message) ≡ some (cmd, content)
split_message-joint_message cmd content h nz = rw (joint_message-fits cmd content h) (
    rw (split_message-frame (frame cmd) content (length-frame cmd h))
      (rw (drop_zeros-append cmd (prefix_cmd_length - length cmd) nz) refl))

some≢none {ℓ} : {A : Type ℓ} {a : A} → some a ≢ none
some≢none e = cc

-- jointMessage panics exactly on the commands of more than twelve bytes.
pub joint_message_panics :
    (cmd : Str) (content : Bytes)
    → (joint_message cmd content ≡ none) ↔ (prefix_cmd_length < length cmd)
unfolding joint_message
joint_message_panics cmd content = (
  λ e. elim (Bool-cases (ltb prefix_cmd_length (length cmd))) [
    | inl long ↦ ltb→lt prefix_cmd_length (length cmd) long
    | inr short ↦
        absurd (some≢none (sym (joint_message-fits cmd content (ground (arith, short))) ∙ e))
  ],
  λ h.
      rw (write_cmd-overruns (replicate prefix_cmd_length 0) 0 cmd (omega (arith, h)) (omega arith))
        refl,
)

-- Whether `handleRequest` has a case for the command.
abbrev pub handled : Command → Option Command
handled reply = none
handled ll_block = none
handled pending_txs = none
handled num_of_migrated_txs_addrs = none
handled unchanged_state = none
handled k = some k

find_case-text : (k : Command) → find_case cases (text k) ≡ handled k
unfolding find_case text cases
find_case-text k = ground arith

text_fits : (k : Command) → (length (text k) ≤ prefix_cmd_length) × NonZero (text k)
unfolding text
text_fits k = ground arith

-- A message that jointMessage makes for a command of the program reaches that command's handler with the content, where handleRequest has one, and is dropped where it has none: no command is taken for another.
pub handle_request-joint_message :
    (k : Command) (content : Bytes)
    → (joint_message (text k) content >>= handle_request) ≡ some (handled k, content)
unfolding handle_request
handle_request-joint_message k content =
    let (fits, nz) = text_fits k in
    bind_then (joint_message (text k) content) split_message (λ m. some (find_case cases m.0, m.1))
      (split_message-joint_message (text k) content fits nz)
    ∙ ap (λ c. some (c, content)) (find_case-text k)
