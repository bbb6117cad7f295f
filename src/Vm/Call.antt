-- ===== src/Vm/Call.antt =====
-- crates/los-vm/src/lib.rs: a hosted call, from the contract's stored state to the stored state
-- after it. `run` is what the WebAssembly engine computes in an execution that ends without an
-- error: a return code and the data at the end. An execution with an error stores nothing.
use unauthority_core.Base.{
  ℕ, Str, Bool, none, some, List, [], ◌∷◌, ◌==◌, ltb, if◌then◌else◌, saturating_sub,
  from_utf8_lossy, str_key,
}
use unauthority_core.Base.Map.{Map, Set, lookup, insert}
use unauthority_core.Vm.Host.{HostData}

pub record Contract : Type 0 where
  pub address : Str
  pub state : Map Str Str
  pub balance : ℕ  -- u128
  pub owner : Str

pub record ContractCall : Type 0 where
  pub args : List Str
  pub caller : Str
  pub block_timestamp : ℕ  -- u64

-- The host data at the start of an execution; `now` is the system clock, for calls without a time.
unfoldable pub host_data : ℕ → ContractCall → Contract → HostData
host_data now call c = record {
  state = c.state;
  dirty_keys = [];
  transfers = [];
  caller = call.caller;
  self_address = c.address;
  balance = c.balance;
  timestamp = if ltb 0 call.block_timestamp then call.block_timestamp else now;
  args = call.args;
}

-- The working values of the dirty keys; a key without one is left out.
unfoldable pub state_changes : Set Str → Map Str Str → List (Str × Str)
state_changes [] state = []
state_changes ((k, u) ∷ dirty) state =
    let rest = state_changes dirty state in
    elim (lookup k state) [ none ↦ rest | some v ↦ (k, v) ∷ rest ]

unfoldable pub apply_changes : List (Str × Str) → Map Str Str → Map Str Str
apply_changes [] m = m
apply_changes ((k, v) ∷ changes) m = apply_changes changes (insert k (from_utf8_lossy v) m)

unfoldable pub pay_transfers : List (Str × ℕ) → ℕ → ℕ
pay_transfers [] balance = balance
pay_transfers ((r, amount) ∷ transfers) balance =
    pay_transfers transfers (saturating_sub balance amount)

-- What the execution leaves behind is stored whatever code the contract returns.
unfoldable pub try_hosted_call :
    (HostData → ℕ × HostData) → ℕ → ContractCall → Contract → Bool × Contract
try_hosted_call run now call c =
    let (code, h) = run (host_data now call c) in
    (
      code == 0,
      record c {
        state = apply_changes (state_changes h.dirty_keys h.state) c.state;
        balance = pay_transfers h.transfers c.balance;
      },
    )
