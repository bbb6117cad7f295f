-- ===== src/Contracts/Token/State.antt =====
-- crates/los-contracts/src/usp01_token.rs, the helpers: the keys of the store and what stands there.
use unauthority_core.Base.{
  ℕ, Str, codes, str_eq, Bool, true, false, Option, none, some, [], ◌∷◌, ◌++◌,
}
use unauthority_core.Base.Outcome.{Outcome, ok, err, panic}
use unauthority_core.Vm.Host.{HostData}
use unauthority_core.Vm.Sdk.{get_str, set_str, arg}
use unauthority_core.Contracts.Decimal.{parse_u128, u128_to_str}

-- The messages of `fail`.
pub data TokenError : Type 0 where
  already_initialized name_required symbol_required bad_decimals no_total_supply : TokenError
  supply_exceeds_max no_origin no_operator no_caller not_initialized no_recipient : TokenError
  zero_amount self_transfer insufficient_balance underflow overflow no_spender : TokenError
  self_approval no_from same_account allowance_exceeded not_wrapped not_operator : TokenError
  no_proof supply_overflow exceeds_max_supply no_destination : TokenError

-- An exported function: an error or a value, and the data after it.
abbrev pub Action : Type 0 → Type 0
Action A = HostData → Outcome TokenError A × HostData

-- Two parts of a function, the second only if the first does not fail.
abbrev pub and_then :
    {A : Type 0}
    → Outcome TokenError (Unit {0}) × HostData
    → Action A
    → Outcome TokenError A × HostData
and_then (ok u, h) next = next h
and_then (err e, h) next = (err e, h)
and_then (panic, h) next = (panic, h)

-- `unwrap_or_default()`
abbrev pub or_empty : Option Str → Str
or_empty none = []
or_empty (some s) = s

abbrev pub is_empty : Str → Bool
is_empty [] = true
is_empty (b ∷ s) = false

abbrev pub bal_prefix : Str
bal_prefix = codes "bal:"

abbrev pub bal_key : Str → Str
bal_key addr = bal_prefix ++ addr

abbrev pub allow_key : Str → Str → Str
allow_key owner spender = codes "allow:" ++ (owner ++ (codes ":" ++ spender))

abbrev pub supply_key : Str
supply_key = codes "usp01:total_supply"

unfoldable pub get_number : Str → HostData → ℕ
get_number key h = parse_u128 (or_empty (get_str key h))

unfoldable pub set_number : Str → ℕ → HostData → HostData
set_number key n h = set_str key (u128_to_str n) h

abbrev pub get_balance : Str → HostData → ℕ
get_balance addr h = get_number (bal_key addr) h

abbrev pub set_balance : Str → ℕ → HostData → HostData
set_balance addr amount h = set_number (bal_key addr) amount h

abbrev pub get_allowance : Str → Str → HostData → ℕ
get_allowance owner spender h = get_number (allow_key owner spender) h

abbrev pub set_allowance : Str → Str → ℕ → HostData → HostData
set_allowance owner spender amount h = set_number (allow_key owner spender) amount h

abbrev pub get_total_supply : HostData → ℕ
get_total_supply h = get_number supply_key h

abbrev pub set_total_supply : ℕ → HostData → HostData
set_total_supply val h = set_number supply_key val h

abbrev pub is_one : Option Str → Bool
is_one none = false
is_one (some v) = str_eq v (codes "1")

unfoldable pub is_initialized : HostData → Bool
is_initialized h = is_one (get_str (codes "usp01:init") h)

-- `match arg(idx) { Some(a) if !a.is_empty() => a, _ => return fail(..) }`
unfoldable pub required : ℕ → TokenError → HostData → Outcome TokenError Str
required idx e h = elim (arg idx h) [
  | none ↦ err e
  | some a ↦ elim (is_empty a) [ true ↦ err e | false ↦ ok a ]
]

-- `parse_u128(&arg(idx).unwrap_or_default())`
unfoldable pub amount_arg : ℕ → HostData → ℕ
amount_arg idx h = parse_u128 (or_empty (arg idx h))
