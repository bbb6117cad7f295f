-- ===== src/Contracts/Token/Guards.antt =====
-- What the checks of the token contract let through.
use unauthority_core.Base.{ℕ, ◌≤◌, ◌≡◌, ◌≢◌, Str, str_eq, true, false, some, arith, ◌+◌}
use unauthority_core.Base.Outcome.{ok}
use unauthority_core.Vm.Host.{HostData}
use unauthority_core.Vm.Sdk.{caller, arg}
use unauthority_core.Contracts.Token.State.{
  get_balance, get_allowance, is_initialized, required, amount_arg, get_total_supply,
}
use unauthority_core.Contracts.Token.{
  check_transfer, check_transfer_from, check_burn, check_wrap_mint, check_wrap_burn, check_approve,
  check_cap, max_supply_of, is_wrapped,
}

pub record MayTransfer (h : HostData) (from to : Str) (amount : ℕ) : Type 0 where
  pub initialized : is_initialized h ≡ true
  pub sender : from ≡ caller h
  pub recipient : arg 0 h ≡ some to
  pub is_amount : amount ≡ amount_arg 1 h
  pub distinct : str_eq from to ≡ false
  pub positive : amount ≢ 0
  pub covered : amount ≤ get_balance from h

pub check_transfer-MayTransfer :
    (h : HostData) (from to : Str) (amount : ℕ)
    → check_transfer h ≡ ok (from, to, amount)
    → MayTransfer h from to amount
unfolding check_transfer required
check_transfer-MayTransfer h from to amount e = record {
  initialized = ground arith;
  sender = ground arith;
  recipient = ground arith;
  is_amount = ground arith;
  distinct = ground arith;
  positive = ground arith;
  covered = ground arith;
}

pub record MayTransferFrom (h : HostData) (from to : Str) (amount : ℕ) (spender : Str)
    : Type 0 where
  pub initialized : is_initialized h ≡ true
  pub sender : spender ≡ caller h
  pub owner : arg 0 h ≡ some from
  pub recipient : arg 1 h ≡ some to
  pub is_amount : amount ≡ amount_arg 2 h
  pub distinct : str_eq from to ≡ false
  pub positive : amount ≢ 0
  pub allowed : amount ≤ get_allowance from spender h
  pub covered : amount ≤ get_balance from h

pub check_transfer_from-MayTransferFrom :
    (h : HostData) (from to : Str) (amount : ℕ) (spender : Str)
    → check_transfer_from h ≡ ok (from, to, amount, spender)
    → MayTransferFrom h from to amount spender
unfolding check_transfer_from required
check_transfer_from-MayTransferFrom h from to amount spender e = record {
  initialized = ground arith;
  sender = ground arith;
  owner = ground arith;
  recipient = ground arith;
  is_amount = ground arith;
  distinct = ground arith;
  positive = ground arith;
  allowed = ground arith;
  covered = ground arith;
}

pub check_burn-covered :
    (h : HostData) (from : Str) (amount : ℕ)
    → check_burn h ≡ ok (from, amount)
    → (is_initialized h ≡ true) × (from ≡ caller h) × (amount ≢ 0) × (amount ≤ get_balance from h)
unfolding check_burn
check_burn-covered h from amount e = (ground arith, ground arith, ground arith, ground arith)

pub check_approve-initialized :
    (h : HostData) (owner spender : Str) (amount : ℕ)
    → check_approve h ≡ ok (owner, spender, amount)
    → (is_initialized h ≡ true) × (owner ≡ caller h) × (amount ≡ amount_arg 1 h)
unfolding check_approve
check_approve-initialized h owner spender amount e = (ground arith, ground arith, ground arith)

pub check_wrap_burn-covered :
    (h : HostData) (from : Str) (amount : ℕ)
    → check_wrap_burn h ≡ ok (from, amount)
    → (is_initialized h ≡ true) × (from ≡ caller h) × (amount ≢ 0) × (amount ≤ get_balance from h)
unfolding check_wrap_burn
check_wrap_burn-covered h from amount e = (ground arith, ground arith, ground arith, ground arith)

-- The supply has no cap.
abbrev pub IsUncapped : HostData → Type 0
IsUncapped h = (is_wrapped h ≡ true) × (max_supply_of h ≡ 0)

check_cap-fits :
    (h : HostData) (amount : ℕ)
    → check_cap amount h ≡ ok tt
    → max_supply_of h ≢ 0
    → get_total_supply h + amount ≤ max_supply_of h
unfolding check_cap
check_cap-fits h amount e capped = ground arith

pub check_wrap_mint-fits :
    (h : HostData) (to : Str) (amount : ℕ)
    → check_wrap_mint h ≡ ok (to, amount)
    → (is_initialized h ≡ true)
      × (is_wrapped h ≡ true)
      × (max_supply_of h ≢ 0 → get_total_supply h + amount ≤ max_supply_of h)
unfolding check_wrap_mint
check_wrap_mint-fits h to amount e =
    let u : check_cap amount h ≡ ok tt = ground arith in
    (ground arith, ground arith, check_cap-fits h amount u)
