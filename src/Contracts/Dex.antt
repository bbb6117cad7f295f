-- ===== src/Contracts/Dex.antt =====
-- crates/los-contracts/src/dex_amm.rs: the exported functions of the exchange that write. The checks
-- of a function come first, in functions that only read; events and the JSON text of the answer are
-- left out. No function moves tokens: they keep reserves and shares as numbers.
pub mod Math
pub mod State
pub mod Create
pub mod Guards
pub mod Pool
pub mod Swap
pub mod Shares
pub mod Deposit
pub mod RoundTrip
mod Tests
pub mod Persisted
pub mod Withdraw
use unauthority_core.Base.{
  ℕ, ◌+◌, ◌-◌, ◌*◌, ◌/◌, ◌%◌, Str, codes, str_eq, Bool, true, false, not, ◌&&◌, ◌||◌, Option, none,
  some, ◌∷◌, ◌==◌, leb, ltb, if◌then◌else◌, checked_mul, u128, u128_mod, u64, decimal, ◌++◌,
}
use unauthority_core.Base.Outcome.{Outcome, ok, err, panic, require, ◌>>=◌, ◌>>◌}
use unauthority_core.Vm.Host.{HostData}
use unauthority_core.Vm.Sdk.{set_str, get_str, del, arg, caller}
use unauthority_core.Contracts.Decimal.{parse_u128, u128_to_str}
use unauthority_core.Contracts.Token.State.{is_empty, get_number, set_number}
use unauthority_core.Contracts.Dex.Math.{
  default_fee_bps, minimum_liquidity, max_fee_bps, wrapping_sub, parse_u64, compute_output,
  deduct_fee,
}
use unauthority_core.Contracts.Dex.State.{
  DexError, DexAction, text_arg, number_arg, get_state_str, get_state_u64, make_pool_id, pool_key,
  lp_key, reserve_a, reserve_b, total_lp, fee_bps, lp_shares, pool_token_a, pool_token_b,
  pool_exists, is_running, set_pool,
}
use unauthority_core.Rewards.State.{isqrt}

-- A change of liquidity: shares and the amounts of both tokens.
pub record Liquidity : Type 0 where
  pub pool_id : Str
  pub lp_tokens : ℕ
  pub amount_a : ℕ
  pub amount_b : ℕ

unfoldable pub minted_lp : ℕ → ℕ → ℕ → ℕ → ℕ → ℕ
minted_lp amount_a amount_b ra rb total =
    let lp_from_a = u128 (amount_a * total) / ra in
    let lp_from_b = u128 (amount_b * total) / rb in
    if ltb lp_from_a lp_from_b then lp_from_a else lp_from_b

unfoldable pub check_add : HostData → Outcome DexError Liquidity
check_add h = do
  require (is_running h) DexError.not_initialized
  pool_id ← text_arg 0 DexError.no_pool_id h
  amount_a ← number_arg parse_u128 1 DexError.no_amount_a h
  amount_b ← number_arg parse_u128 2 DexError.no_amount_b h
  min_lp_tokens ← number_arg parse_u128 3 DexError.no_min_lp h
  require (pool_exists pool_id h) DexError.pool_not_found
  require (not ((amount_a == 0) || (amount_b == 0))) DexError.zero_amount
  let ra = reserve_a pool_id h
  let rb = reserve_b pool_id h
  let total = total_lp pool_id h
  require (not ((ra == 0) || ((rb == 0) || (total == 0)))) DexError.no_liquidity
  let lp_tokens = minted_lp amount_a amount_b ra rb total
  require (not (ltb lp_tokens min_lp_tokens)) DexError.slippage
  ok (record {
    pool_id = pool_id;
    lp_tokens = lp_tokens;
    amount_a = u128 (lp_tokens * ra) / total;
    amount_b = u128 (lp_tokens * rb) / total;
  })

unfoldable pub add_liquidity : DexAction
add_liquidity h = elim (check_add h) [
  | ok l ↦
      let h1 =
        set_pool l.pool_id (u128 (reserve_a l.pool_id h + l.amount_a))
          (u128 (reserve_b l.pool_id h + l.amount_b)) (u128 (total_lp l.pool_id h + l.lp_tokens))
          h in
      let existing_lp = lp_shares l.pool_id (caller h) h1 in
      (ok tt, set_number (lp_key l.pool_id (caller h)) (u128 (existing_lp + l.lp_tokens)) h1)
  | err e ↦ (err e, h)
  | panic ↦ (panic, h)
]

unfoldable pub check_remove : HostData → Outcome DexError Liquidity
check_remove h = do
  require (is_running h) DexError.not_initialized
  pool_id ← text_arg 0 DexError.no_pool_id h
  lp_amount ← number_arg parse_u128 1 DexError.no_lp_amount h
  min_amount_a ← number_arg parse_u128 2 DexError.no_min_amount h
  min_amount_b ← number_arg parse_u128 3 DexError.no_min_amount h
  require (pool_exists pool_id h) DexError.pool_not_found
  require (leb lp_amount (lp_shares pool_id (caller h) h)) DexError.insufficient_lp
  let total = total_lp pool_id h
  require (not (total == 0)) DexError.no_liquidity
  let amount_a = u128 (lp_amount * reserve_a pool_id h) / total
  let amount_b = u128 (lp_amount * reserve_b pool_id h) / total
  require (not (ltb amount_a min_amount_a || ltb amount_b min_amount_b)) DexError.slippage
  ok (record { pool_id = pool_id; lp_tokens = lp_amount; amount_a = amount_a; amount_b = amount_b })

-- The shares that are left; none are deleted.
unfoldable pub set_shares : Str → ℕ → HostData → HostData
set_shares key new_lp h = if new_lp == 0 then del key h else set_number key new_lp h

unfoldable pub remove_liquidity : DexAction
remove_liquidity h = elim (check_remove h) [
  | ok l ↦
      let caller_lp = lp_shares l.pool_id (caller h) h in
      let h1 =
        set_pool l.pool_id (wrapping_sub (reserve_a l.pool_id h) l.amount_a)
          (wrapping_sub (reserve_b l.pool_id h) l.amount_b)
          (wrapping_sub (total_lp l.pool_id h) l.lp_tokens) h in
      (ok tt, set_shares (lp_key l.pool_id (caller h)) (caller_lp - l.lp_tokens) h1)
  | err e ↦ (err e, h)
  | panic ↦ (panic, h)
]

pub record Trade : Type 0 where
  pub pool_id : Str
  pub is_a_to_b : Bool
  pub amount_in : ℕ
  pub amount_out : ℕ

unfoldable pub check_swap : HostData → Outcome DexError Trade
check_swap h = do
  require (is_running h) DexError.not_initialized
  pool_id ← text_arg 0 DexError.no_pool_id h
  token_in ← text_arg 1 DexError.no_token_in h
  amount_in ← number_arg parse_u128 2 DexError.no_amount_in h
  min_amount_out ← number_arg parse_u128 3 DexError.no_min_amount_out h
  deadline ← number_arg parse_u64 4 DexError.no_deadline h
  require (pool_exists pool_id h) DexError.pool_not_found
  require (not (amount_in == 0)) DexError.zero_amount
  require (not (ltb 0 deadline && ltb deadline h.timestamp)) DexError.expired
  let is_a_to_b = str_eq token_in (pool_token_a pool_id h)
  let is_b_to_a = str_eq token_in (pool_token_b pool_id h)
  require (is_a_to_b || is_b_to_a) DexError.not_in_pool
  let reserve_in = if is_a_to_b then reserve_a pool_id h else reserve_b pool_id h
  let reserve_out = if is_a_to_b then reserve_b pool_id h else reserve_a pool_id h
  let amount_out =
      compute_output (deduct_fee amount_in (fee_bps pool_id h)).0 reserve_in reserve_out
  require (not (ltb amount_out min_amount_out)) DexError.slippage
  require (not (amount_out == 0)) DexError.zero_output
  require (ltb amount_out reserve_out) DexError.insufficient_liquidity
  ok (record {
    pool_id = pool_id;
    is_a_to_b = is_a_to_b;
    amount_in = amount_in;
    amount_out = amount_out;
  })

-- The two reserves, that of the token that comes in first.
unfoldable pub store_trade : Trade → HostData → HostData
store_trade t h =
    let key_a = pool_key t.pool_id (codes "reserve_a") in
    let key_b = pool_key t.pool_id (codes "reserve_b") in
    if t.is_a_to_b
    then set_number key_b (wrapping_sub (reserve_b t.pool_id h) t.amount_out)
        (set_number key_a (u128 (reserve_a t.pool_id h + t.amount_in)) h)
    else set_number key_a (wrapping_sub (reserve_a t.pool_id h) t.amount_out)
        (set_number key_b (u128 (reserve_b t.pool_id h + t.amount_in)) h)

unfoldable pub swap : DexAction
swap h = elim (check_swap h) [
  | ok t ↦
      (ok tt, set_number (pool_key t.pool_id (codes "last_trade")) h.timestamp (store_trade t h))
  | err e ↦ (err e, h)
  | panic ↦ (panic, h)
]
