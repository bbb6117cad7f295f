-- ===== src/Rewards/Tests.antt =====
-- Runs of the reward pool, and the theorems at those runs.
use unauthority_core.Sample.{toy}
use unauthority_core.Base.{
  false, ◌+◌, List, ℕ, ◌*◌, ◌^◌, ◌<◌, ◌≡◌, refl, codes, str_eq, true, [], ◌∷◌, arith, str_key,
}
use unauthority_core.Base.Map.{lookup, contains, insert, replace, insert_new}
use unauthority_core.Ledger.Block.{cil_per_los}
use unauthority_core.Rewards.State.{
  ValidatorRewardState, new_state, uptime_pct, is_eligible, newton, isqrt, sqrt_stake_weight,
  ValidatorRewardPool, with_balance, new_pool, validator_reward_pool_cil,
}
use unauthority_core.Rewards.{
  register_validator, modify_validator, record_heartbeat, set_expected_heartbeats,
  epoch_reward_rate, advance_epoch, eligible, total, reward_of, rewards_for, credit,
  distribute_epoch_rewards,
}
use unauthority_core.Rewards.Runs.{Op, registers, beats, expects, distributes, run}
use unauthority_core.Rewards.Fund.{fund_is_conserved}
use unauthority_core.Rewards.Isqrt.{IsRoot, isqrt-IsRoot}
use unauthority_core.Rewards.Distribution.{Distributes, rewards_within_budget}

-- All that a run computes with, under one name.
engine : Unit {0}
unfolding new_state uptime_pct is_eligible newton isqrt sqrt_stake_weight with_balance new_pool
    register_validator modify_validator record_heartbeat set_expected_heartbeats epoch_reward_rate
    advance_epoch eligible reward_of rewards_for credit distribute_epoch_rewards str_eq lookup
    contains insert replace insert_new
engine = tt

-- Two validators with stakes of 10,000 and 40,000 LOS, in epoch 1, with all their heartbeats.
abbrev active : ℕ → ValidatorRewardState
active stake = record {
  join_epoch = 0;
  heartbeats_current_epoch = 2;
  expected_heartbeats = 2;
  cumulative_rewards_cil = 0;
  is_genesis = true;
  stake_cil = stake * cil_per_los;
  last_epoch_uptime_pct = 0;
}

abbrev pool : ValidatorRewardPool
pool = record {
  remaining_cil = 500_000 * cil_per_los;
  current_epoch = 1;
  epoch_start_timestamp = 120;
  halvings_occurred = 0;
  total_distributed_cil = 0;
  validators = (codes "a", active 10_000) ∷ (codes "b", active 40_000) ∷ [];
  epoch_duration_secs = 120;
}

run_isqrt : isqrt 1_000_003 ≡ 1_000
unfolding engine
run_isqrt = refl

-- The weights are 100 and 200.
run_distribution :
    (distribute_epoch_rewards pool).0
    ≡ (codes "a", 166_666_666_666_666) ∷ (codes "b", 333_333_333_333_333) ∷ []
unfolding engine
run_distribution = refl

isqrt-IsRoot_example : IsRoot 1_000_003 (isqrt 1_000_003)
isqrt-IsRoot_example = isqrt-IsRoot 1_000_003 (omega arith)

weights_fit : total (eligible pool.current_epoch pool.validators) < 2 ^ 128
unfolding engine
weights_fit = omega arith

rewards_within_budget_example :
    Distributes pool (distribute_epoch_rewards pool).0 (distribute_epoch_rewards pool).1
rewards_within_budget_example =
    rewards_within_budget pool (omega arith) (omega arith) weights_fit
      (unfold engine in (refl, (refl, tt)))

abbrev epochs : List Op
epochs =
    registers (codes "a") true (10_000 * cil_per_los)
    ∷ registers (codes "b") false (40_000 * cil_per_los)
    ∷ distributes
    ∷ beats (codes "a")
    ∷ expects 60
    ∷ distributes
    ∷ []

fund_is_conserved_example :
    (run epochs (new_pool toy 1_000)).remaining_cil
      + (run epochs (new_pool toy 1_000)).total_distributed_cil
    ≡ validator_reward_pool_cil
fund_is_conserved_example =
    fund_is_conserved toy 1_000 epochs (omega arith, (omega arith, (tt, (tt, (tt, (tt, tt))))))
      (omega arith)
