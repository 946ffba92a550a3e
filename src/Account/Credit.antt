-- ===== src/Account/Credit.antt =====
-- account/account_state.go: the credit lines of the bank. An amount is copied on the way in and out, so
-- that a line is a value.
use block_preempt.Prelude.{◌≡◌, refl, ◌≢◌, Bool, Option, none, some, [], ◌∷◌, if◌then◌else◌}
use block_preempt.Prelude.Int.{ℤ, pos}
use block_preempt.Account.Hex.{Str, str_eq, str_eq_refl, str_eq_ne}

abbrev pub CreditLines : Type 0
CreditLines = Str → Option ℤ

-- "BANK"
abbrev pub bank_account_addr : Str
bank_account_addr = 66 ∷ 65 ∷ 78 ∷ 75 ∷ []

unfoldable pub is_bank_account : Str → Bool
is_bank_account addr = str_eq addr bank_account_addr

abbrev pub initialize_bank_accounts : CreditLines
initialize_bank_accounts addr = none

abbrev pub credit_or_zero : Option ℤ → ℤ
credit_or_zero (some credit) = credit
credit_or_zero none = pos 0

unfoldable pub get_bank_credit_line : Str → CreditLines → ℤ
get_bank_credit_line account_addr lines = credit_or_zero (lines account_addr)

unfoldable pub set_bank_credit_line : Str → ℤ → CreditLines → CreditLines
set_bank_credit_line account_addr amount lines j =
    if str_eq account_addr j then some amount else lines j

unfoldable pub clear_bank_credit_line : Str → CreditLines → CreditLines
clear_bank_credit_line account_addr lines j = if str_eq account_addr j then none else lines j

-- A line that is set reads as its amount, a line that is cleared reads as zero, and neither changes the
-- line of another account.
pub get_bank_credit_line-set :
    (a : Str) (amount : ℤ) (lines : CreditLines)
    → (get_bank_credit_line a (set_bank_credit_line a amount lines) ≡ amount)
      × (get_bank_credit_line a (clear_bank_credit_line a (set_bank_credit_line a amount lines))
          ≡ pos 0)
      × ((b : Str)
          → a ≢ b
          → (get_bank_credit_line b (set_bank_credit_line a amount lines)
              ≡ get_bank_credit_line b lines)
            × (get_bank_credit_line b (clear_bank_credit_line a lines)
                ≡ get_bank_credit_line b lines))
unfolding get_bank_credit_line set_bank_credit_line clear_bank_credit_line
get_bank_credit_line-set a amount lines = (
  rw (str_eq_refl a) refl,
  rw (str_eq_refl a) refl,
  λ b ne. (rw (str_eq_ne a b ne) refl, rw (str_eq_ne a b ne) refl),
)
