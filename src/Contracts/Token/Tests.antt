-- ===== src/Contracts/Token/Tests.antt =====
-- Runs of the token contract, and the theorems at concrete calls.
use unauthority_core.Base.{
  from_utf8, from_utf8_lossy, next_bytes, grow_char, start_char, cut_off, next_char, repair, ◌+◌,
  ◌≤◌, ◌<◌, ◌≡◌, ◌⊎◌, refl, sym, Str, codes, str_eq, str_ltb, starts_with, is_char_boundary, some,
  [], ◌∷◌, arith, decimal, parse_u128 as parse_number,
}
use mathlib.Core.Bool.{true≢false}
use unauthority_core.Base.Map.{lookup, contains, insert, replace, insert_new}
use unauthority_core.Base.Outcome.{ok}
use unauthority_core.Vm.Host.{HostData, read_text, host_set_state, host_get_state, host_get_arg}
use unauthority_core.Vm.Sdk.{set_str, get_str, arg, caller}
use unauthority_core.Contracts.Decimal.{parse_from, parse_u128, digits, u128_to_str}
use unauthority_core.Contracts.Token.State.{
  get_number, set_number, is_initialized, required, amount_arg, get_balance, get_allowance,
  get_total_supply,
}
use unauthority_core.Contracts.Token.{
  debit, credit, check_transfer, transfer, check_transfer_from, transfer_from, check_approve,
  approve, check_burn, burn, check_wrap_mint, wrap_mint, check_cap, check_wrap_burn, wrap_burn,
}
use unauthority_core.Contracts.Token.Init.{parse_decimals, check_init, store_metadata, init}
use unauthority_core.Contracts.Token.Store.{HasRoom}
use unauthority_core.Contracts.Token.Guards.{IsUncapped}
use unauthority_core.Contracts.Token.Outstanding.{outstanding}
use unauthority_core.Contracts.Token.Balances.{IsShortAddress, HasShortArgs, AllShort-HasShortArgs}
use unauthority_core.Contracts.Token.Runs.{
  at_init, at_transfer, at_approve, at_transfer_from, TokenCall, enter, run, supply_backs_balances,
  transfer_is_atomic,
}
use unauthority_core.Contracts.Token.Transfer.{Pays, transfer-Pays, transfer_from-Pays}
use unauthority_core.Contracts.Token.Authority.{MayLower, debits_are_authorised}

-- All that a run computes with, under one name.
engine : Unit {0}
unfolding read_text host_set_state host_get_state host_get_arg set_str get_str arg caller from_utf8
    from_utf8_lossy next_bytes grow_char start_char cut_off next_char repair parse_from parse_u128
    digits u128_to_str get_number set_number is_initialized required amount_arg debit credit
    check_transfer transfer check_transfer_from transfer_from check_approve approve check_burn burn
    check_wrap_mint wrap_mint check_cap check_wrap_burn wrap_burn parse_decimals check_init
    store_metadata init run str_eq str_ltb starts_with is_char_boundary lookup contains insert
    replace insert_new decimal parse_number
engine = tt

abbrev empty_store : HostData
empty_store = record {
  state = [];
  dirty_keys = [];
  transfers = [];
  caller = [];
  self_address = codes "coin";
  balance = 0;
  timestamp = 0;
  args = [];
}

abbrev deploy : TokenCall
deploy = record {
  function = at_init;
  caller = codes "alice";
  args = codes "Coin" ∷ codes "CO" ∷ codes "6" ∷ codes "1000" ∷ [];
}

abbrev pay_bob : TokenCall
pay_bob = record {
  function = at_transfer;
  caller = codes "alice";
  args = codes "bob" ∷ codes "300" ∷ [];
}

abbrev allow : TokenCall
allow = record {
  function = at_approve;
  caller = codes "alice";
  args = codes "bob" ∷ codes "50" ∷ [];
}

abbrev spend : TokenCall
spend = record {
  function = at_transfer_from;
  caller = codes "bob";
  args = codes "alice" ∷ codes "carol" ∷ codes "20" ∷ [];
}

creator_gets_all : get_balance (codes "alice") (run (deploy ∷ []) empty_store) ≡ 1_000
unfolding engine
creator_gets_all = refl

amounts_move :
    let h = run (deploy ∷ pay_bob ∷ allow ∷ spend ∷ []) empty_store in
    (get_balance (codes "alice") h ≡ 680)
    × (get_balance (codes "bob") h ≡ 300)
    × (get_balance (codes "carol") h ≡ 20)
    × (get_allowance (codes "alice") (codes "bob") h ≡ 30)
    × (get_total_supply h ≡ 1_000)
unfolding engine
amounts_move = (refl, refl, refl, refl, refl)

-- The theorems at these calls.
supply_backs_balances_example :
    let h = run (deploy ∷ pay_bob ∷ allow ∷ spend ∷ []) empty_store in
    IsUncapped h ⊎ (outstanding h ≤ get_total_supply h)
supply_backs_balances_example =
    supply_backs_balances (deploy ∷ pay_bob ∷ allow ∷ spend ∷ []) empty_store refl

no_cap_is_moot : ¬ IsUncapped (run (deploy ∷ []) empty_store)
unfolding engine
no_cap_is_moot u = true≢false (sym u.0)

transfer_is_atomic_example :
    let before = enter pay_bob (run (deploy ∷ []) empty_store) in
    ((transfer before).0 ≡ ok tt) ⊎ ((transfer before).1 ≡ before)
transfer_is_atomic_example =
    transfer_is_atomic (deploy ∷ []) empty_store pay_bob refl no_cap_is_moot

abbrev before_pay : HostData
before_pay = enter pay_bob (run (deploy ∷ []) empty_store)

pay_args : HasShortArgs before_pay
unfolding run
pay_args = AllShort-HasShortArgs before_pay (omega arith, (omega arith, tt))

pay_room : HasRoom 2 before_pay
pay_room = omega arith

pay_succeeds : transfer before_pay ≡ (ok tt, (transfer before_pay).1)
unfolding engine
pay_succeeds = refl

transfer-Pays_example :
    (to : Str) × (arg 0 before_pay ≡ some to)
    × IsShortAddress (caller before_pay)
    × Pays (caller before_pay) to (amount_arg 1 before_pay) before_pay (transfer before_pay).1
transfer-Pays_example =
    transfer-Pays before_pay (transfer before_pay).1 pay_room pay_args pay_succeeds

abbrev before_spend : HostData
before_spend = enter spend (run (deploy ∷ allow ∷ []) empty_store)

spend_args : HasShortArgs before_spend
unfolding run
spend_args = AllShort-HasShortArgs before_spend (omega arith, (omega arith, (omega arith, tt)))

spend_room : HasRoom 3 before_spend
spend_room = omega arith

spend_succeeds : transfer_from before_spend ≡ (ok tt, (transfer_from before_spend).1)
unfolding engine
spend_succeeds = refl

transfer_from-Pays_example :
    (from : Str) × (to : Str) × (arg 0 before_spend ≡ some from)
    × (arg 1 before_spend ≡ some to)
    × Pays from to (amount_arg 2 before_spend) before_spend (transfer_from before_spend).1
    × (get_allowance from (caller before_spend) (transfer_from before_spend).1
          + amount_arg 2 before_spend
        ≡ get_allowance from (caller before_spend) before_spend)
transfer_from-Pays_example =
    transfer_from-Pays before_spend (transfer_from before_spend).1 spend_room spend_args
      spend_succeeds

spend_lowers :
    get_balance (codes "alice") (transfer_from before_spend).1
    < get_balance (codes "alice") before_spend
unfolding engine
spend_lowers = omega arith

debits_are_authorised_example :
    MayLower at_transfer_from before_spend (transfer_from before_spend).1 (codes "alice")
debits_are_authorised_example =
    debits_are_authorised (deploy ∷ allow ∷ []) empty_store spend (codes "alice") refl (omega arith)
      spend_lowers
