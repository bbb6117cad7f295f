-- ===== src/Contracts/Dex/Create.antt =====
-- crates/los-contracts/src/dex_amm.rs, `init` and `create_pool`.
use unauthority_core.Base.{
  ℕ, ◌+◌, ◌-◌, Str, codes, str_eq, not, ◌||◌, none, some, ◌==◌, leb, if◌then◌else◌, checked_mul,
  u64, decimal, ◌++◌,
}
use unauthority_core.Base.Outcome.{Outcome, ok, err, panic, require, ◌>>=◌, ◌>>◌}
use unauthority_core.Vm.Host.{HostData}
use unauthority_core.Vm.Sdk.{set_str, arg, caller}
use unauthority_core.Contracts.Decimal.{parse_u128}
use unauthority_core.Contracts.Token.State.{is_empty, set_number}
use unauthority_core.Contracts.Dex.Math.{default_fee_bps, minimum_liquidity, max_fee_bps}
use unauthority_core.Contracts.Dex.State.{
  DexError, DexAction, text_arg, number_arg, get_state_u64, make_pool_id, pool_key, lp_key,
  pool_exists, is_running, set_pool,
}
use unauthority_core.Rewards.State.{isqrt}

unfoldable pub init : DexAction
init h =
    if is_running h
    then (err DexError.already_initialized, h)
    else (let h1 = set_str (codes "dex:init") (codes "1") h in
        let h2 = set_str (codes "dex:owner") (caller h) h1 in
        (ok tt, set_number (codes "dex:pool_count") 0 h2))

-- `match arg(4) { Some(v) if !v.is_empty() => parse_u128(&v), _ => DEFAULT_FEE_BPS }`
unfoldable pub fee_arg : HostData → ℕ
fee_arg h = elim (arg 4 h) [
  | none ↦ default_fee_bps
  | some v ↦ if is_empty v then default_fee_bps else parse_u128 v
]

pub record NewPool : Type 0 where
  pub pool_id : Str
  pub token_a : Str
  pub token_b : Str
  pub amount_a : ℕ
  pub amount_b : ℕ
  pub initial_lp : ℕ
  pub fee : ℕ

-- The square root of the product of the amounts.
unfoldable pub initial_liquidity : ℕ → ℕ → Outcome DexError ℕ
initial_liquidity amount_a amount_b = elim (checked_mul amount_a amount_b) [
  | none ↦ err DexError.overflow
  | some product ↦
      if leb (isqrt product) minimum_liquidity
      then err DexError.too_little_liquidity
      else ok (isqrt product)
]

unfoldable pub check_create : HostData → Outcome DexError NewPool
check_create h = do
  require (is_running h) DexError.not_initialized
  token_a ← text_arg 0 DexError.no_token_a h
  token_b ← text_arg 1 DexError.no_token_b h
  amount_a ← number_arg parse_u128 2 DexError.no_amount_a h
  amount_b ← number_arg parse_u128 3 DexError.no_amount_b h
  let fee = fee_arg h
  require (not (str_eq token_a token_b)) DexError.identical_tokens
  require (not ((amount_a == 0) || (amount_b == 0))) DexError.no_liquidity_given
  require (leb fee max_fee_bps) DexError.fee_too_high
  let pool_id = make_pool_id token_a token_b
  require (not (pool_exists pool_id h)) DexError.pool_exists_already
  initial_lp ← initial_liquidity amount_a amount_b
  ok (record {
    pool_id = pool_id;
    token_a = token_a;
    token_b = token_b;
    amount_a = amount_a;
    amount_b = amount_b;
    initial_lp = initial_lp;
    fee = fee;
  })

unfoldable pub store_pool : NewPool → HostData → HostData
store_pool p h =
    let h1 = set_str (pool_key p.pool_id (codes "token_a")) p.token_a h in
    let h2 = set_str (pool_key p.pool_id (codes "token_b")) p.token_b h1 in
    let h3 = set_pool p.pool_id p.amount_a p.amount_b p.initial_lp h2 in
    let h4 = set_number (pool_key p.pool_id (codes "fee_bps")) p.fee h3 in
    let h5 = set_str (pool_key p.pool_id (codes "creator")) (caller h) h4 in
    let h6 = set_number (pool_key p.pool_id (codes "last_trade")) 0 h5 in
    set_number (lp_key p.pool_id (caller h)) (p.initial_lp - minimum_liquidity) h6

-- The list of all pools.
unfoldable pub list_pool : Str → HostData → HostData
list_pool pool_id h =
    let count = get_state_u64 (codes "dex:pool_count") h in
    let h1 = set_str (codes "pool_list:" ++ decimal count) pool_id h in
    set_number (codes "dex:pool_count") (u64 (count + 1)) h1

unfoldable pub create_pool : DexAction
create_pool h = elim (check_create h) [
  | ok p ↦ (ok tt, list_pool p.pool_id (store_pool p h))
  | err e ↦ (err e, h)
  | panic ↦ (panic, h)
]
