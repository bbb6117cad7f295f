-- ===== src/Contracts/Dex/Tests.antt =====
-- Runs of the exchange, and the theorems at concrete calls.
use unauthority_core.Base.{
  from_utf8, from_utf8_lossy, next_bytes, grow_char, start_char, cut_off, next_char, repair, ℕ, ◌≤◌,
  ◌<◌, ◌≡◌, ◌^◌, refl, Str, codes, str_eq, str_ltb, str_key, starts_with, is_char_boundary, some,
  List, [], ◌∷◌, arith, decimal,
}
use unauthority_core.Base.Map.{
  lookup, contains, insert, replace, insert_new, erase, HasDistinctKeys,
}
use unauthority_core.Base.Outcome.{ok}
use unauthority_core.Vm.Host.{
  HostData, read_text, host_set_state, host_get_state, host_del_state, host_get_arg,
}
use unauthority_core.Vm.Sdk.{set_str, get_str, del, arg, caller}
use unauthority_core.Vm.Call.{
  Contract, ContractCall, host_data, state_changes, apply_changes, pay_transfers, try_hosted_call,
}
use unauthority_core.Rewards.State.{newton, isqrt}
use unauthority_core.Contracts.Decimal.{parse_from, parse_u128, digits, u128_to_str}
use unauthority_core.Contracts.Token.State.{get_number, set_number}
use unauthority_core.Contracts.Token.Store.{HasRoom}
use unauthority_core.Contracts.Dex.Math.{parse_u64_from, parse_u64, compute_output, deduct_fee}
use unauthority_core.Contracts.Dex.State.{
  text_arg, number_arg, make_pool_id, pool_exists, is_running, lp_key, lp_shares, reserve_a,
  reserve_b, total_lp,
}
use unauthority_core.Contracts.Dex.Create.{
  init, fee_arg, initial_liquidity, check_create, store_pool, list_pool, create_pool,
}
use unauthority_core.Contracts.Dex.{
  minted_lp, check_add, add_liquidity, check_remove, set_shares, remove_liquidity, check_swap,
  store_trade, swap,
}
use unauthority_core.Contracts.Dex.Guards.{IsAmount}
use unauthority_core.Contracts.Dex.Swap.{FitsTrade, Trades, swap_keeps_product}
use unauthority_core.Contracts.Dex.Withdraw.{FitsWithdrawal, Withdraws, withdrawal_is_proportional}
use unauthority_core.Contracts.Dex.Deposit.{FitsDeposit}
use unauthority_core.Contracts.Dex.RoundTrip.{next_call, deposit_and_withdrawal_keep_reserves}
use unauthority_core.Contracts.Dex.Persisted.{run_remove, full_withdrawal_keeps_shares}

-- All that a run computes with, under one name.
engine : Unit {0}
unfolding read_text host_set_state host_get_state host_del_state host_get_arg set_str get_str del
    arg caller from_utf8 from_utf8_lossy next_bytes grow_char start_char cut_off next_char repair
    parse_from parse_u128 digits u128_to_str parse_u64_from parse_u64 get_number set_number
    compute_output deduct_fee text_arg number_arg make_pool_id pool_exists is_running init fee_arg
    initial_liquidity check_create store_pool list_pool create_pool minted_lp check_add
    add_liquidity check_remove set_shares remove_liquidity check_swap store_trade swap newton isqrt
    str_eq str_ltb starts_with is_char_boundary lookup contains insert replace insert_new erase
    decimal host_data state_changes apply_changes pay_transfers try_hosted_call
engine = tt

-- A pool of 10,000 and 40,000 with 20,000 shares, of which the creator has 19,000.
abbrev store : HostData
store = record {
  state = [];
  dirty_keys = [];
  transfers = [];
  caller = codes "alice";
  self_address = codes "dex";
  balance = 0;
  timestamp = 100;
  args = codes "A" ∷ codes "B" ∷ codes "10000" ∷ codes "40000" ∷ [];
}

abbrev created : HostData
created = (create_pool (init store).1).1

abbrev id : Str
id = codes "POOL:A:B"

run_create :
    ((create_pool (init store).1).0 ≡ ok tt)
    × (reserve_a id created ≡ 10_000)
    × (reserve_b id created ≡ 40_000)
    × (total_lp id created ≡ 20_000)
    × (lp_shares id (codes "alice") created ≡ 19_000)
unfolding engine
run_create = (refl, refl, refl, refl, refl)

abbrev trade : HostData
trade = next_call (codes "bob") (id ∷ codes "A" ∷ codes "1000" ∷ codes "1" ∷ codes "0" ∷ []) created

run_swap : (reserve_a id (swap trade).1 ≡ 11_000) × (reserve_b id (swap trade).1 ≡ 36_374)
unfolding engine
run_swap = (refl, refl)

trade_given : arg 0 trade ≡ some id
unfolding engine
trade_given = refl

trade_size : IsAmount 2 trade 1_000
unfolding engine
trade_size = (codes "1000", refl, refl)

trade_fits : FitsTrade trade id 1_000
unfolding engine
trade_fits = record {
  small_fee = omega arith;
  fits_fee = omega arith;
  fits_a = omega arith;
  fits_b = omega arith;
  fits_sum_a = omega arith;
  fits_sum_b = omega arith;
}

trade_succeeds : swap trade ≡ (ok tt, (swap trade).1)
unfolding engine
trade_succeeds = refl

trade_room : HasRoom 3 trade
trade_room = omega arith

trade_clock : trade.timestamp < 2 ^ 64
unfolding engine
trade_clock = omega arith

swap_keeps_product_example : Trades id trade (swap trade).1
swap_keeps_product_example =
    swap_keeps_product trade (swap trade).1 id 1_000 trade_given trade_size (omega arith) trade_room
      trade_clock trade_fits trade_succeeds

-- A withdrawal of a part by the creator.
abbrev leave : HostData
leave = next_call (codes "alice") (id ∷ codes "9000" ∷ codes "0" ∷ codes "0" ∷ []) created

leave_given : arg 0 leave ≡ some id
unfolding engine
leave_given = refl

leave_size : IsAmount 1 leave 9_000
unfolding engine
leave_size = (codes "9000", refl, refl)

leave_fits : FitsWithdrawal leave id 9_000
unfolding engine
leave_fits = record {
  short = omega arith;
  room = omega arith;
  distinct = (
    refl,
    (
      refl,
      (refl, (refl, (refl, (refl, (refl, (refl, (refl, (refl, (refl, (refl, (refl, tt))))))))))),
    ),
  );
  fits_a = omega arith;
  fits_b = omega arith;
  part = omega arith;
}

leave_succeeds : remove_liquidity leave ≡ (ok tt, (remove_liquidity leave).1)
unfolding engine
leave_succeeds = refl

withdrawal_is_proportional_example :
    Withdraws id (caller leave) 9_000 leave (remove_liquidity leave).1
withdrawal_is_proportional_example =
    withdrawal_is_proportional leave (remove_liquidity leave).1 id 9_000 leave_given leave_size
      leave_fits leave_succeeds

-- A deposit, and the withdrawal of its shares.
abbrev join : HostData
join = next_call (codes "carol") (id ∷ codes "1000" ∷ codes "4000" ∷ codes "0" ∷ []) created

join_given : arg 0 join ≡ some id
unfolding engine
join_given = refl

join_size_a : IsAmount 1 join 1_000
unfolding engine
join_size_a = (codes "1000", refl, refl)

join_size_b : IsAmount 2 join 4_000
unfolding engine
join_size_b = (codes "4000", refl, refl)

join_fits : FitsDeposit join id 1_000 4_000
unfolding engine
join_fits = record {
  short = omega arith;
  room = omega arith;
  fits_a = omega arith;
  fits_b = omega arith;
  fits_sum_a = omega arith;
  fits_sum_b = omega arith;
  fits_lp = omega arith;
  part = omega arith;
}

join_succeeds : add_liquidity join ≡ (ok tt, (add_liquidity join).1)
unfolding engine
join_succeeds = refl

abbrev again_args : List Str
again_args = id ∷ codes "2000" ∷ codes "0" ∷ codes "0" ∷ []

abbrev again : HostData
again = next_call (codes "carol") again_args (add_liquidity join).1

abbrev minted : ℕ
minted = minted_lp 1_000 4_000 (reserve_a id join) (reserve_b id join) (total_lp id join)

again_given : arg 0 again ≡ some id
unfolding engine
again_given = refl

again_size : IsAmount 1 again minted
unfolding engine
again_size = (codes "2000", refl, refl)

again_fits : FitsWithdrawal again id minted
unfolding engine
again_fits = record {
  short = omega arith;
  room = omega arith;
  distinct = (
    refl,
    (
      refl,
      (
        refl,
        (refl, (refl, (refl, (refl, (refl, (refl, (refl, (refl, (refl, (refl, (refl, tt))))))))))),
      ),
    ),
  );
  fits_a = omega arith;
  fits_b = omega arith;
  part = omega arith;
}

again_succeeds : remove_liquidity again ≡ (ok tt, (remove_liquidity again).1)
unfolding engine
again_succeeds = refl

deposit_and_withdrawal_keep_reserves_example :
    (reserve_a id join ≤ reserve_a id (remove_liquidity again).1)
    × (reserve_b id join ≤ reserve_b id (remove_liquidity again).1)
    × (total_lp id (remove_liquidity again).1 ≡ total_lp id join)
deposit_and_withdrawal_keep_reserves_example =
    deposit_and_withdrawal_keep_reserves join (add_liquidity join).1 (remove_liquidity again).1 id
      1_000 4_000 (codes "carol") again_args join_given join_size_a join_size_b join_fits
      join_succeeds again_given again_size again_fits again_succeeds

-- The creator withdraws everything in a hosted call.
abbrev dex : Contract
dex = record { address = codes "dex"; state = created.state; balance = 0; owner = codes "alice" }

abbrev leave_all : ContractCall
leave_all = record {
  args = id ∷ codes "19000" ∷ codes "0" ∷ codes "0" ∷ [];
  caller = codes "alice";
  block_timestamp = 200;
}

abbrev hosted : HostData
hosted = host_data 0 leave_all dex

hosted_given : arg 0 hosted ≡ some id
unfolding engine
hosted_given = refl

hosted_size : IsAmount 1 hosted (lp_shares id (caller hosted) hosted)
unfolding engine
hosted_size = (codes "19000", refl, refl)

dex_distinct : HasDistinctKeys dex.state
unfolding engine
dex_distinct = (
  refl,
  (
    refl,
    (refl, (refl, (refl, (refl, (refl, (refl, (refl, (refl, (refl, (refl, (refl, tt))))))))))),
  ),
)

hosted_succeeds : remove_liquidity hosted ≡ (ok tt, (remove_liquidity hosted).1)
unfolding engine
hosted_succeeds = refl

full_withdrawal_keeps_shares_example :
    lookup (lp_key id (caller hosted)) (try_hosted_call run_remove 0 leave_all dex).1.state
    ≡ lookup (lp_key id (caller hosted)) dex.state
full_withdrawal_keeps_shares_example =
    full_withdrawal_keeps_shares 0 leave_all dex (remove_liquidity hosted).1 id hosted_given
      hosted_size dex_distinct hosted_succeeds

-- Most of the reserves are gone, and the shares are still there.
run_leave_all :
    (lookup (codes "pool:POOL:A:B:reserve_a") (try_hosted_call run_remove 0 leave_all dex).1.state
      ≡ some (codes "500"))
    × (lookup (codes "lp:POOL:A:B:alice") (try_hosted_call run_remove 0 leave_all dex).1.state
        ≡ some (codes "19000"))
unfolding engine
run_leave_all = (refl, refl)
