-- ===== src/Rewards/State.antt =====
-- crates/los-core/src/validator_rewards.rs and the reward constants of crates/los-core/src/lib.rs:
-- the state of the reward pool, the eligibility and the weight of a validator.
use unauthority_core.Base.{ℕ, zero, suc, ◌+◌, ◌*◌, ◌/◌, Str, Bool, true, false, []}
use unauthority_core.Base.{if◌then◌else◌, ◌==◌, ltb, u64, u128, min}
use unauthority_core.Base.Map.{Map}
use unauthority_core.Crypto.{Platform}
use unauthority_core.Ledger.Block.{cil_per_los, min_validator_stake_cil, is_testnet_build}

abbrev pub validator_reward_pool_cil : ℕ
validator_reward_pool_cil = 500_000 * cil_per_los

abbrev pub reward_epoch_secs : ℕ
reward_epoch_secs = 2_592_000

abbrev pub testnet_reward_epoch_secs : ℕ
testnet_reward_epoch_secs = 120

abbrev pub effective_reward_epoch_secs : Platform → ℕ
effective_reward_epoch_secs p =
    if is_testnet_build p then testnet_reward_epoch_secs else reward_epoch_secs

abbrev pub reward_rate_initial_cil : ℕ
reward_rate_initial_cil = 5_000 * cil_per_los

abbrev pub reward_halving_interval_epochs : ℕ
reward_halving_interval_epochs = 48

abbrev pub reward_min_uptime_pct : ℕ
reward_min_uptime_pct = 95

abbrev pub reward_probation_epochs : ℕ
reward_probation_epochs = 1

pub record ValidatorRewardState : Type 0 where
  pub join_epoch : ℕ  -- u64
  pub heartbeats_current_epoch : ℕ  -- u64
  pub expected_heartbeats : ℕ  -- u64
  pub cumulative_rewards_cil : ℕ  -- u128
  pub is_genesis : Bool
  pub stake_cil : ℕ  -- u128
  pub last_epoch_uptime_pct : ℕ  -- u64

unfoldable pub new_state : ℕ → Bool → ℕ → ValidatorRewardState
new_state join_epoch is_genesis stake_cil = record {
  join_epoch = join_epoch;
  heartbeats_current_epoch = 0;
  expected_heartbeats = 0;
  cumulative_rewards_cil = 0;
  is_genesis = is_genesis;
  stake_cil = stake_cil;
  last_epoch_uptime_pct = 0;
}

unfoldable pub uptime_pct : ValidatorRewardState → ℕ
uptime_pct v =
    if v.expected_heartbeats == 0
    then 0
    else min (u64 (v.heartbeats_current_epoch * 100) / v.expected_heartbeats) 100

unfoldable pub is_eligible : ℕ → ValidatorRewardState → Bool
is_eligible current_epoch v =
    if ltb current_epoch (u64 (v.join_epoch + reward_probation_epochs))
    then false
    else if ltb (uptime_pct v) reward_min_uptime_pct
    then false
    else if ltb v.stake_cil min_validator_stake_cil
    then false
    else true

-- The loop `while y < x`. Each round makes `x` smaller, so `n` rounds are enough.
unfoldable pub newton : ℕ → ℕ → ℕ → ℕ → ℕ
newton zero n x y = x
newton (suc rounds) n x y = elim (ltb y x) [
  | true ↦ newton rounds n y (u128 (y + n / y) / 2)
  | false ↦ x
]

unfoldable pub isqrt : ℕ → ℕ
unfolding newton
isqrt n = if n == 0 then 0 else newton n n n ((n + 1) / 2)

unfoldable pub sqrt_stake_weight : ValidatorRewardState → ℕ
sqrt_stake_weight v = isqrt (v.stake_cil / cil_per_los)

pub record ValidatorRewardPool : Type 0 where
  pub remaining_cil : ℕ  -- u128
  pub current_epoch : ℕ  -- u64
  pub epoch_start_timestamp : ℕ  -- u64
  pub halvings_occurred : ℕ  -- u64
  pub total_distributed_cil : ℕ  -- u128
  pub validators : Map Str ValidatorRewardState
  pub epoch_duration_secs : ℕ  -- u64

unfoldable pub with_balance : Platform → ℕ → ℕ → ValidatorRewardPool
with_balance p genesis_timestamp balance_cil = record {
  remaining_cil = balance_cil;
  current_epoch = 0;
  epoch_start_timestamp = genesis_timestamp;
  halvings_occurred = 0;
  total_distributed_cil = 0;
  validators = [];
  epoch_duration_secs = effective_reward_epoch_secs p;
}

unfoldable pub new_pool : Platform → ℕ → ValidatorRewardPool
unfolding with_balance
new_pool p genesis_timestamp = with_balance p genesis_timestamp validator_reward_pool_cil
