-- ===== src/Contracts/Token.antt =====
-- crates/los-contracts/src/usp01_token.rs: the exported functions of the USP-01 token contract. The
-- checks of a function come first, in `check_` functions that only read; events, logs and the JSON
-- text of the answer are left out.
pub mod State
pub mod Init
pub mod Store
pub mod Numbers
pub mod Guards
mod Tests
pub mod Authority
pub mod Falls
pub mod Transfer
pub mod Balances
pub mod Runs
pub mod Deployed
pub mod Supply
pub mod Writes
pub mod Outstanding
use unauthority_core.Base.{
  ℕ, ◌+◌, Str, codes, str_eq, decimal, Bool, true, false, not, ◌&&◌, Option, none, some, [], ◌∷◌,
  ◌==◌, leb, ltb, u64_mod, checked_add, checked_sub, saturating_add, saturating_sub, if◌then◌else◌,
  length,
}
use unauthority_core.Base.Outcome.{Outcome, ok, err, panic, require, ◌>>=◌, ◌>>◌}
use unauthority_core.Vm.Host.{HostData}
use unauthority_core.Vm.Sdk.{get_str, set_str, arg, caller}
use unauthority_core.Contracts.Decimal.{parse_u128}
use unauthority_core.Contracts.Token.State.{
  TokenError, Action, and_then, or_empty, is_empty, get_number, set_number, get_balance,
  set_balance, get_allowance, set_allowance, get_total_supply, set_total_supply, is_one,
  is_initialized, required, amount_arg,
}

-- Takes from a balance, `checked_sub`.
unfoldable pub debit : Str → ℕ → Action (Unit {0})
debit addr amount h = elim (checked_sub (get_balance addr h) amount) [
  | none ↦ (err TokenError.underflow, h)
  | some new_balance ↦ (ok tt, set_balance addr new_balance h)
]

-- Adds to a balance, `checked_add`.
unfoldable pub credit : Str → ℕ → Action (Unit {0})
credit addr amount h = elim (checked_add (get_balance addr h) amount) [
  | none ↦ (err TokenError.overflow, h)
  | some new_balance ↦ (ok tt, set_balance addr new_balance h)
]

-- `let amount = ...; if amount == 0 { return fail(..) }`
abbrev pub positive_amount : ℕ → HostData → Outcome TokenError ℕ
positive_amount idx h =
    if amount_arg idx h == 0 then err TokenError.zero_amount else ok (amount_arg idx h)

-- `let from = caller(); if from.is_empty() { return fail(..) }`
abbrev pub known_caller : HostData → Outcome TokenError Str
known_caller h = if is_empty (caller h) then err TokenError.no_caller else ok (caller h)

unfoldable pub check_transfer : HostData → Outcome TokenError (Str × Str × ℕ)
check_transfer h = do
  require (is_initialized h) TokenError.not_initialized
  to ← required 0 TokenError.no_recipient h
  amount ← positive_amount 1 h
  from ← known_caller h
  require (not (str_eq from to)) TokenError.self_transfer
  require (leb amount (get_balance from h)) TokenError.insufficient_balance
  ok (from, to, amount)

unfoldable pub transfer : Action (Unit {0})
transfer h = elim (check_transfer h) [
  | ok (from, to, amount) ↦ and_then (debit from amount h) (credit to amount)
  | err e ↦ (err e, h)
  | panic ↦ (panic, h)
]

unfoldable pub check_approve : HostData → Outcome TokenError (Str × Str × ℕ)
check_approve h = do
  require (is_initialized h) TokenError.not_initialized
  spender ← required 0 TokenError.no_spender h
  owner ← known_caller h
  require (not (str_eq owner spender)) TokenError.self_approval
  ok (owner, spender, amount_arg 1 h)

unfoldable pub approve : Action (Unit {0})
approve h = elim (check_approve h) [
  | ok (owner, spender, amount) ↦ (ok tt, set_allowance owner spender amount h)
  | err e ↦ (err e, h)
  | panic ↦ (panic, h)
]

unfoldable pub check_transfer_from : HostData → Outcome TokenError (Str × Str × ℕ × Str)
check_transfer_from h = do
  require (is_initialized h) TokenError.not_initialized
  from ← required 0 TokenError.no_from h
  to ← required 1 TokenError.no_recipient h
  amount ← positive_amount 2 h
  require (not (str_eq from to)) TokenError.same_account
  spender ← known_caller h
  require (leb amount (get_allowance from spender h)) TokenError.allowance_exceeded
  require (leb amount (get_balance from h)) TokenError.insufficient_balance
  ok (from, to, amount, spender)

-- The allowance that is reduced was read before the balances were written.
unfoldable pub transfer_from : Action (Unit {0})
transfer_from h = elim (check_transfer_from h) [
  | ok (from, to, amount, spender) ↦
      and_then (and_then (debit from amount h) (credit to amount)) (λ h'. (
        ok tt,
        set_allowance from spender (saturating_sub (get_allowance from spender h) amount) h',
      ))
  | err e ↦ (err e, h)
  | panic ↦ (panic, h)
]

abbrev pub lower_supply : ℕ → Action (Unit {0})
lower_supply amount h = (ok tt, set_total_supply (saturating_sub (get_total_supply h) amount) h)

unfoldable pub check_burn : HostData → Outcome TokenError (Str × ℕ)
check_burn h = do
  require (is_initialized h) TokenError.not_initialized
  amount ← positive_amount 0 h
  from ← known_caller h
  require (leb amount (get_balance from h)) TokenError.insufficient_balance
  ok (from, amount)

unfoldable pub burn : Action (Unit {0})
burn h = elim (check_burn h) [
  | ok (from, amount) ↦ and_then (debit from amount h) (lower_supply amount)
  | err e ↦ (err e, h)
  | panic ↦ (panic, h)
]

abbrev pub is_wrapped : HostData → Bool
is_wrapped h = is_one (get_str (codes "usp01:is_wrapped") h)

abbrev pub max_supply_of : HostData → ℕ
max_supply_of h = get_number (codes "usp01:max_supply") h

-- The cap on the supply; 0 stands for no cap.
unfoldable pub check_cap : ℕ → HostData → Outcome TokenError (Unit {0})
check_cap amount h =
    if max_supply_of h == 0 then ok tt else elim (checked_add (get_total_supply h) amount) [
      | none ↦ err TokenError.supply_overflow
      | some new_supply ↦
          if ltb (max_supply_of h) new_supply then err TokenError.exceeds_max_supply else ok tt
    ]

unfoldable pub check_wrap_mint : HostData → Outcome TokenError (Str × ℕ)
check_wrap_mint h = do
  require (is_initialized h) TokenError.not_initialized
  require (is_wrapped h) TokenError.not_wrapped
  require (str_eq (caller h) (or_empty (get_str (codes "usp01:bridge_operator") h)))
      TokenError.not_operator
  to ← required 0 TokenError.no_recipient h
  amount ← positive_amount 1 h
  proof ← required 2 TokenError.no_proof h
  check_cap amount h
  ok (to, amount)

unfoldable pub wrap_mint : Action (Unit {0})
wrap_mint h = elim (check_wrap_mint h) [
  | ok (to, amount) ↦
      and_then (credit to amount h)
        (λ h'. (ok tt, set_total_supply (saturating_add (get_total_supply h) amount) h'))
  | err e ↦ (err e, h)
  | panic ↦ (panic, h)
]

unfoldable pub check_wrap_burn : HostData → Outcome TokenError (Str × ℕ)
check_wrap_burn h = do
  require (is_initialized h) TokenError.not_initialized
  require (is_wrapped h) TokenError.not_wrapped
  amount ← positive_amount 0 h
  destination ← required 1 TokenError.no_destination h
  from ← known_caller h
  require (leb amount (get_balance from h)) TokenError.insufficient_balance
  ok (from, amount)

unfoldable pub wrap_burn : Action (Unit {0})
wrap_burn h = elim (check_wrap_burn h) [
  | ok (from, amount) ↦ and_then (debit from amount h) (lower_supply amount)
  | err e ↦ (err e, h)
  | panic ↦ (panic, h)
]
