-- ===== src/AntiWhale/Tests.antt =====
-- Runs of the anti-whale engine, and the theorems at concrete runs.
use unauthority_core.Base.{
  ℕ, ◌+◌, ◌≤◌, ◌≡◌, refl, codes, str_eq, str_ltb, str_key, some, List, [], ◌∷◌, arith,
}
use unauthority_core.Base.Map.{lookup, insert, replace, insert_new}
use unauthority_core.Base.Outcome.{ok}
use unauthority_core.AntiWhale.{
  AddressActivity, AntiWhaleEngine, default_config, new_engine, maybe_reset_activity, open_block,
  new_block, estimate_fee, current_activity, charge, register_transaction, register_burn,
  reset_block_activity,
}
use unauthority_core.AntiWhale.Runs.{Op, transacts, burns, run}
use unauthority_core.AntiWhale.Fees.{estimate_is_charged}
use unauthority_core.AntiWhale.Burns.{burn_all, burns_within_limit}

-- All that a run computes with, under one name.
engine : Unit {0}
unfolding maybe_reset_activity open_block new_block estimate_fee current_activity charge
    register_transaction register_burn reset_block_activity run burn_all lookup insert replace
    insert_new str_eq str_ltb
engine = tt

abbrev seven : List (ℕ × Op)
seven =
    (10, transacts (codes "a") 100)
    ∷ (11, transacts (codes "a") 100)
    ∷ (12, transacts (codes "a") 100)
    ∷ (13, transacts (codes "a") 100)
    ∷ (14, transacts (codes "a") 100)
    ∷ (15, burns (codes "a") 600)
    ∷ (16, transacts (codes "a") 100)
    ∷ []

abbrev busy : AntiWhaleEngine
busy = run seven (new_engine default_config)

-- The seventh transaction within a minute costs four times the fee.
seventh_costs_more :
    ((register_transaction 17 (codes "a") 100 busy).0 ≡ 400)
    × ((register_transaction 70 (codes "a") 100 busy).0 ≡ 100)
unfolding engine
seventh_costs_more = (refl, refl)

estimate_is_charged_example :
    (register_transaction 17 (codes "a") 100 busy).0 ≡ estimate_fee 17 (codes "a") 100 busy
estimate_is_charged_example =
    estimate_is_charged default_config seven 17 (codes "a") 100 (ground arith) (omega arith)

abbrev activity_of_a : AddressActivity
activity_of_a = record {
  tx_count = 6;
  total_burned = 600;
  last_block = 0;
  fee_multiplier = 2;
  window_start = 10;
}

known_a : lookup (codes "a") busy.address_activity ≡ some activity_of_a
unfolding engine
known_a = refl

abbrev attempts : List (ℕ × ℕ)
attempts = (20, 300) ∷ (21, 200) ∷ (22, 100) ∷ []

-- The second attempt is refused.
second_is_refused : (burn_all (codes "a") attempts busy).0 ≡ 400
unfolding engine
second_is_refused = refl

limit_of_busy : busy.config.max_burn_per_block ≡ 1_000
unfolding engine
limit_of_busy = refl

-- An amount that overflows is accepted.
overflow_is_accepted : (register_burn 20 (codes "a") 18_446_744_073_709_551_516 busy).0 ≡ ok tt
unfolding engine
overflow_is_accepted = refl

burns_within_limit_example :
    activity_of_a.total_burned + (burn_all (codes "a") attempts busy).0
    ≤ busy.config.max_burn_per_block
unfolding run new_block register_transaction register_burn
burns_within_limit_example =
    burns_within_limit (codes "a") attempts busy activity_of_a known_a
      (omega (arith, limit_of_busy))
      (
        (omega arith, omega (arith, limit_of_busy)),
        (
          (omega arith, omega (arith, limit_of_busy)),
          ((omega arith, omega (arith, limit_of_busy)), tt),
        ),
      )
