-- ===== src/Contracts/Dex/State.antt =====
-- crates/los-contracts/src/dex_amm.rs, the helpers: the keys of the store and what stands there.
use unauthority_core.Base.{
  ℕ, Str, codes, str_eq, str_ltb, Bool, true, false, not, none, some, ◌++◌, if◌then◌else◌,
}
use unauthority_core.Base.Outcome.{Outcome, ok, err}
use unauthority_core.Vm.Host.{HostData}
use unauthority_core.Vm.Sdk.{get_str, arg}
use unauthority_core.Contracts.Token.State.{or_empty, is_empty, get_number, set_number}
use unauthority_core.Contracts.Dex.Math.{parse_u64}

-- The messages of `fail`.
pub data DexError : Type 0 where
  already_initialized not_initialized no_token_a no_token_b no_amount_a no_amount_b : DexError
  identical_tokens no_liquidity_given fee_too_high pool_exists_already overflow : DexError
  too_little_liquidity no_pool_id no_min_lp pool_not_found zero_amount no_liquidity : DexError
  slippage no_lp_amount no_min_amount insufficient_lp no_token_in no_amount_in : DexError
  no_min_amount_out no_deadline expired not_in_pool zero_output insufficient_liquidity : DexError

-- An exported function: an error or the end, and the data after it.
abbrev pub DexAction : Type 0
DexAction = HostData → Outcome DexError (Unit {0}) × HostData

-- `match arg(idx) { Some(v) if !v.is_empty() => v, _ => return fail(..) }`
unfoldable pub text_arg : ℕ → DexError → HostData → Outcome DexError Str
text_arg idx e h = elim (arg idx h) [
  | none ↦ err e
  | some a ↦ elim (is_empty a) [ true ↦ err e | false ↦ ok a ]
]

-- `match arg(idx) { Some(v) => parse(&v), None => return fail(..) }`
unfoldable pub number_arg : (Str → ℕ) → ℕ → DexError → HostData → Outcome DexError ℕ
number_arg parse idx e h = elim (arg idx h) [ none ↦ err e | some a ↦ ok (parse a) ]

abbrev pub get_state_str : Str → HostData → Str
get_state_str key h = or_empty (get_str key h)

abbrev pub get_state_u64 : Str → HostData → ℕ
get_state_u64 key h = parse_u64 (get_state_str key h)

unfoldable pub make_pool_id : Str → Str → Str
make_pool_id token_a token_b =
    if str_ltb token_a token_b
    then codes "POOL:" ++ (token_a ++ (codes ":" ++ token_b))
    else codes "POOL:" ++ (token_b ++ (codes ":" ++ token_a))

-- The keys of a pool, `pool:{id}:{field}`.
abbrev pub pool_key : Str → Str → Str
pool_key pool_id field = codes "pool:" ++ (pool_id ++ (codes ":" ++ field))

abbrev pub lp_key : Str → Str → Str
lp_key pool_id who = codes "lp:" ++ (pool_id ++ (codes ":" ++ who))

abbrev pub reserve_a : Str → HostData → ℕ
reserve_a pool_id h = get_number (pool_key pool_id (codes "reserve_a")) h

abbrev pub reserve_b : Str → HostData → ℕ
reserve_b pool_id h = get_number (pool_key pool_id (codes "reserve_b")) h

abbrev pub total_lp : Str → HostData → ℕ
total_lp pool_id h = get_number (pool_key pool_id (codes "total_lp")) h

abbrev pub fee_bps : Str → HostData → ℕ
fee_bps pool_id h = get_number (pool_key pool_id (codes "fee_bps")) h

abbrev pub lp_shares : Str → Str → HostData → ℕ
lp_shares pool_id who h = get_number (lp_key pool_id who) h

abbrev pub pool_token_a : Str → HostData → Str
pool_token_a pool_id h = get_state_str (pool_key pool_id (codes "token_a")) h

abbrev pub pool_token_b : Str → HostData → Str
pool_token_b pool_id h = get_state_str (pool_key pool_id (codes "token_b")) h

unfoldable pub pool_exists : Str → HostData → Bool
pool_exists pool_id h = not (is_empty (pool_token_a pool_id h))

unfoldable pub is_running : HostData → Bool
is_running h = str_eq (get_state_str (codes "dex:init") h) (codes "1")

-- The three numbers of a pool, in the order in which a change of liquidity writes them.
abbrev pub set_pool : Str → ℕ → ℕ → ℕ → HostData → HostData
set_pool pool_id a b lp h =
    let h1 = set_number (pool_key pool_id (codes "reserve_a")) a h in
    let h2 = set_number (pool_key pool_id (codes "reserve_b")) b h1 in
    set_number (pool_key pool_id (codes "total_lp")) lp h2
