-- ===== src/Contracts/Token/Init.antt =====
-- crates/los-contracts/src/usp01_token.rs, `init`: the deployment of a token.
use unauthority_core.Base.{
  ℕ, Str, codes, str_eq, decimal, parse_u128 as parse_number, Bool, not, ◌&&◌, none, some, ◌==◌,
  leb, ltb, u64_mod, if◌then◌else◌, length,
}
use unauthority_core.Base.Outcome.{Outcome, ok, err, panic, require, ◌>>=◌, ◌>>◌}
use unauthority_core.Vm.Host.{HostData}
use unauthority_core.Vm.Sdk.{set_str, arg}
use unauthority_core.Contracts.Token.State.{
  TokenError, Action, or_empty, is_empty, set_number, set_balance, set_total_supply, is_initialized,
  required, amount_arg,
}
use unauthority_core.Contracts.Token.{known_caller}

pub record Metadata : Type 0 where
  pub name : Str
  pub symbol : Str
  pub decimals : ℕ
  pub total_supply : ℕ
  pub wrapped : Bool
  pub wrapped_origin : Str
  pub max_supply : ℕ
  pub bridge_operator : Str
  pub creator : Str

-- A text of at most this length.
abbrev at_most : ℕ → TokenError → Str → Outcome TokenError Str
at_most n e s = if leb (length s) n then ok s else err e

-- `s.parse::<u64>()`, and the test `d <= 18`.
unfoldable pub parse_decimals : Str → Outcome TokenError ℕ
parse_decimals s = elim (parse_number s) [
  | none ↦ err TokenError.bad_decimals
  | some d ↦ if ltb d u64_mod && leb d 18 then ok d else err TokenError.bad_decimals
]

unfoldable pub check_init : HostData → Outcome TokenError Metadata
check_init h = do
  require (not (is_initialized h)) TokenError.already_initialized
  any_name ← required 0 TokenError.name_required h
  name ← at_most 64 TokenError.name_required any_name
  any_symbol ← required 1 TokenError.symbol_required h
  symbol ← at_most 8 TokenError.symbol_required any_symbol
  decimals ← parse_decimals (or_empty (arg 2 h))
  let total_supply = amount_arg 3 h
  require (not (total_supply == 0)) TokenError.no_total_supply
  let wrapped = str_eq (or_empty (arg 4 h)) (codes "1")
  let wrapped_origin = or_empty (arg 5 h)
  let max_supply = amount_arg 6 h
  let bridge_operator = or_empty (arg 7 h)
  require (not (ltb 0 max_supply && ltb max_supply total_supply)) TokenError.supply_exceeds_max
  require (not (wrapped && is_empty wrapped_origin)) TokenError.no_origin
  require (not (wrapped && is_empty bridge_operator)) TokenError.no_operator
  creator ← known_caller h
  ok (record {
    name = name;
    symbol = symbol;
    decimals = decimals;
    total_supply = total_supply;
    wrapped = wrapped;
    wrapped_origin = wrapped_origin;
    max_supply = max_supply;
    bridge_operator = bridge_operator;
    creator = creator;
  })

-- The metadata but the supply, in the order in which it is written.
unfoldable pub store_metadata : Metadata → HostData → HostData
store_metadata m h =
    let h1 = set_str (codes "usp01:init") (codes "1") h in
    let h2 = set_str (codes "usp01:name") m.name h1 in
    let h3 = set_str (codes "usp01:symbol") m.symbol h2 in
    let h4 = set_str (codes "usp01:decimals") (decimal m.decimals) h3 in
    let h5 = set_total_supply m.total_supply h4 in
    let h6 = set_str (codes "usp01:is_wrapped") (if m.wrapped then codes "1" else codes "0") h5 in
    let h7 = set_str (codes "usp01:wrapped_origin") m.wrapped_origin h6 in
    let h8 = set_number (codes "usp01:max_supply") m.max_supply h7 in
    let h9 = set_str (codes "usp01:bridge_operator") m.bridge_operator h8 in
    set_str (codes "usp01:owner") m.creator h9

unfoldable pub init : Action (Unit {0})
init h = elim (check_init h) [
  | ok m ↦ (ok tt, set_balance m.creator m.total_supply (store_metadata m h))
  | err e ↦ (err e, h)
  | panic ↦ (panic, h)
]
