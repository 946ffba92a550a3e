-- ===== src/Migrate/Sure.antt =====
-- pbft/PBFTforMigrate.go: `SendSure` and `handleSure`: a leader counts the shards that have sent away
-- their accounts, its own too, and the last one ends the change of the epoch. The count is under
-- `sure_count_lock`; `Unlock` of a mutex that is not locked is fatal.
use block_preempt.Prelude.{
  ℕ, suc, ◌+◌, ◌<◌, ◌≡◌, refl, ap, ◌∙◌, Bool, true, false, Option, none, some, List, [], ◌∷◌,
  length, ◌==◌, if◌then◌else◌, ◌>>=◌, arith,
}

pub record Epoch : Type 0 where
  pub sure_count : ℕ
  pub epoch_locked : Bool

abbrev pub count_sure : ℕ → Epoch → Option Epoch
count_sure shard_num s =
    if suc s.sure_count == shard_num
    then (if s.epoch_locked then some (record { sure_count = 0; epoch_locked = false }) else none)
    else some (record s { sure_count = suc s.sure_count })

-- The part behind the messages to the other leaders.
unfoldable pub send_sure : ℕ → Epoch → Option Epoch
send_sure shard_num s = count_sure shard_num s

unfoldable pub handle_sure : ℕ → Epoch → Option Epoch
handle_sure shard_num s = count_sure shard_num s

-- In the order in which the lock lets them in.
pub data Sure : Type 0 where
  sends : Sure
  receives : ℕ → Sure

unfoldable pub step_sure : ℕ → Sure → Epoch → Option Epoch
unfolding send_sure handle_sure
step_sure shard_num sends s = send_sure shard_num s
step_sure shard_num (receives shardid) s = handle_sure shard_num s

unfoldable pub run_sures : ℕ → List Sure → Epoch → Option Epoch
unfolding step_sure
run_sures shard_num [] s = some s
run_sures shard_num (e ∷ es) s = step_sure shard_num e s >>= λ s'. run_sures shard_num es s'

step_sure-count :
    (shard_num : ℕ) (e : Sure) (s : Epoch) → step_sure shard_num e s ≡ count_sure shard_num s
unfolding step_sure send_sure handle_sure
step_sure-count shard_num sends s = refl
step_sure-count shard_num (receives shardid) s = refl

abbrev epoch : Bool → ℕ → Option Epoch
epoch locked k = some (record { sure_count = k; epoch_locked = locked })

count_sure-before :
    (shard_num : ℕ) (s : Epoch)
    → suc s.sure_count < shard_num
    → count_sure shard_num s ≡ epoch s.epoch_locked (suc s.sure_count)
count_sure-before shard_num s h =
    let e : (suc s.sure_count == shard_num) ≡ false = ground arith in rw e refl

run_sures-waits :
    (shard_num : ℕ) (es : List Sure) (s : Epoch)
    → s.sure_count + length es < shard_num
    → run_sures shard_num es s ≡ epoch s.epoch_locked (s.sure_count + length es)
unfolding run_sures
run_sures-waits shard_num [] s h = ap (epoch s.epoch_locked) (omega arith)
run_sures-waits shard_num (e ∷ es) s h =
    let s' : Epoch = record s { sure_count = suc s.sure_count } in
    rw (step_sure-count shard_num e s) (
      rw (count_sure-before shard_num s (omega arith))
        (run_sures-waits shard_num es s' (omega arith) ∙ ap (epoch s.epoch_locked) (omega arith)))

run_sures-ends :
    (shard_num : ℕ) (e : Sure) (es : List Sure) (s : Epoch)
    → s.epoch_locked ≡ true
    → s.sure_count + length (e ∷ es) ≡ shard_num
    → run_sures shard_num (e ∷ es) s ≡ epoch false 0
unfolding run_sures
run_sures-ends shard_num e [] s locked h =
    let last : (suc s.sure_count == shard_num) ≡ true = ground arith in
    rw (step_sure-count shard_num e s) (rw last (simp locked refl))
run_sures-ends shard_num e (e' ∷ es) s locked h =
    let s' : Epoch = record s { sure_count = suc s.sure_count } in
    rw (step_sure-count shard_num e s) (
      rw (count_sure-before shard_num s (omega arith))
        (run_sures-ends shard_num e' es s' locked (omega arith)))

-- While the epoch changes, with fewer than Shard_num sures counted: as long as sures are missing the lock
-- of the epoch is held and every sure is counted, and the one that completes Shard_num releases the lock
-- and sets the count back, in whatever order the own sure and those of the others come.
pub run_sures-barrier :
    (shard_num : ℕ) (es : List Sure) (s : Epoch)
    → s.epoch_locked ≡ true
    → s.sure_count < shard_num
    → (s.sure_count + length es < shard_num
        → run_sures shard_num es s
          ≡ some (record { sure_count = s.sure_count + length es; epoch_locked = true }))
      × (s.sure_count + length es ≡ shard_num
          → run_sures shard_num es s ≡ some (record { sure_count = 0; epoch_locked = false }))
run_sures-barrier shard_num [] s locked small = (
  λ h. run_sures-waits shard_num [] s h ∙ ap (λ b. epoch b (s.sure_count + 0)) locked,
  λ h. absurd (omega arith),
)
run_sures-barrier shard_num (e ∷ es) s locked small = (
  λ h.
      run_sures-waits shard_num (e ∷ es) s h
      ∙ ap (λ b. epoch b (s.sure_count + length (e ∷ es))) locked,
  λ h. run_sures-ends shard_num e es s locked h,
)
