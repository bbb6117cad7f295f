-- ===== src/Rewards.antt =====
-- crates/los-core/src/validator_rewards.rs: the operations of ValidatorRewardPool.
pub mod State
pub mod Isqrt
pub mod Distribution
pub mod Weights
pub mod Runs
pub mod Fund
mod Tests
use unauthority_core.Base.{
  ℕ, ◌+◌, ◌-◌, ◌*◌, ◌/◌, ◌^◌, Str, Bool, true, false, ◌&&◌, Option, none, some, List, [], ◌∷◌, ◌==◌,
  ltb, leb, u64, u128, checked_mul, saturating_sub, min, if◌then◌else◌, str_key,
}
use unauthority_core.Base.Map.{Map, lookup, contains, insert, erase, Set}
use unauthority_core.Rewards.State.{
  reward_rate_initial_cil, reward_halving_interval_epochs, ValidatorRewardState, new_state,
  uptime_pct, is_eligible, sqrt_stake_weight, ValidatorRewardPool,
}

abbrev pub Validators : Type 0
Validators = Map Str ValidatorRewardState

-- `values_mut()`
abbrev pub map_values : (ValidatorRewardState → ValidatorRewardState) → Validators → Validators
map_values f [] = []
map_values f ((address, v) ∷ m) = (address, f v) ∷ map_values f m

-- `if let Some(state) = self.validators.get_mut(address)`
unfoldable pub modify_validator :
    (ValidatorRewardState → ValidatorRewardState) → Str → Validators → Validators
modify_validator f address m = elim (lookup address m) [
  | none ↦ m
  | some v ↦ insert address (f v) m
]

unfoldable pub register_validator : Str → Bool → ℕ → ValidatorRewardPool → ValidatorRewardPool
register_validator address is_genesis stake_cil s = elim (lookup address s.validators) [
  | none ↦ record s {
    validators = insert address (new_state s.current_epoch is_genesis stake_cil) s.validators;
  }
  | some v ↦ record s {
    validators =
        insert address (record v { stake_cil = stake_cil; is_genesis = is_genesis }) s.validators;
  }
]

abbrev pub beat : ValidatorRewardState → ValidatorRewardState
beat v = record v { heartbeats_current_epoch = u64 (v.heartbeats_current_epoch + 1) }

unfoldable pub record_heartbeat : Str → ValidatorRewardPool → ValidatorRewardPool
record_heartbeat address s = record s { validators = modify_validator beat address s.validators }

-- Returns whether a heartbeat was recorded, the set of this tick, and the pool.
unfoldable pub record_heartbeat_once :
    Str → Set Str → ValidatorRewardPool → Bool × Set Str × ValidatorRewardPool
record_heartbeat_once address seen s =
    if contains address seen
    then (false, seen, s)
    else if contains address s.validators
    then (true, insert address tt seen, record_heartbeat address s)
    else (false, seen, s)

unfoldable pub epoch_reward_rate : ValidatorRewardPool → ℕ
epoch_reward_rate s =
    let halvings = s.current_epoch / reward_halving_interval_epochs in
    if leb 128 halvings then 0 else reward_rate_initial_cil / 2 ^ halvings

unfoldable pub is_epoch_complete : ℕ → ValidatorRewardPool → Bool
is_epoch_complete now s = leb (u64 (s.epoch_start_timestamp + s.epoch_duration_secs)) now

abbrev pub reset_heartbeats : ValidatorRewardState → ValidatorRewardState
reset_heartbeats v = record v { heartbeats_current_epoch = 0; expected_heartbeats = 0 }

-- The epochs that are skipped: all that have passed but the last.
abbrev pub epochs_to_skip : ℕ → ValidatorRewardPool → ℕ
epochs_to_skip now s = saturating_sub now s.epoch_start_timestamp / s.epoch_duration_secs - 1

unfoldable pub catch_up_epochs : ℕ → ValidatorRewardPool → ℕ × ValidatorRewardPool
catch_up_epochs now s =
    let skip = epochs_to_skip now s in
    let epoch = u64 (s.current_epoch + skip) in
    if s.epoch_duration_secs == 0
    then (0, s)
    else if leb (saturating_sub now s.epoch_start_timestamp / s.epoch_duration_secs) 1
    then (0, s)
    else (
      skip,
      record s {
        current_epoch = epoch;
        epoch_start_timestamp = u64 (s.epoch_start_timestamp + u64 (skip * s.epoch_duration_secs));
        halvings_occurred = epoch / reward_halving_interval_epochs;
        validators = map_values reset_heartbeats s.validators;
      },
    )

abbrev pub full_heartbeats : ℕ → ValidatorRewardPool → ℕ
full_heartbeats interval s = if ltb 0 interval then s.epoch_duration_secs / interval else 0

abbrev pub expect : ℕ → ValidatorRewardState → ValidatorRewardState
expect full v =
    if v.heartbeats_current_epoch == 0
    then record v { expected_heartbeats = full }
    else if (v.expected_heartbeats == 0) && ltb 0 full
    then record v { expected_heartbeats = min v.heartbeats_current_epoch full }
    else record v { expected_heartbeats = full }

unfoldable pub set_expected_heartbeats : ℕ → ValidatorRewardPool → ValidatorRewardPool
set_expected_heartbeats interval s = record s {
  validators = map_values (expect (full_heartbeats interval s)) s.validators;
}

abbrev pub close_epoch : ValidatorRewardState → ValidatorRewardState
close_epoch v = record v {
  last_epoch_uptime_pct = uptime_pct v;
  heartbeats_current_epoch = 0;
  expected_heartbeats = 0;
}

unfoldable pub advance_epoch : ValidatorRewardPool → ValidatorRewardPool
advance_epoch s = record s {
  current_epoch = u64 (s.current_epoch + 1);
  epoch_start_timestamp = u64 (s.epoch_start_timestamp + s.epoch_duration_secs);
  halvings_occurred = u64 (s.current_epoch + 1) / reward_halving_interval_epochs;
  validators = map_values close_epoch s.validators;
}

-- The eligible validators with their weights.
unfoldable pub eligible : ℕ → Validators → List (Str × ℕ)
eligible epoch [] = []
eligible epoch ((address, v) ∷ m) =
    let rest = eligible epoch m in
    if is_eligible epoch v && ltb 0 (sqrt_stake_weight v)
    then (address, sqrt_stake_weight v) ∷ rest
    else rest

abbrev pub total : List (Str × ℕ) → ℕ
total [] = 0
total ((address, n) ∷ ns) = n + total ns

-- `checked_mul(...).map(...).unwrap_or(0)`
unfoldable pub reward_of : ℕ → ℕ → ℕ → ℕ
reward_of budget total_weight weight = elim (checked_mul budget weight) [
  | none ↦ 0
  | some prod ↦ prod / total_weight
]

unfoldable pub rewards_for : ℕ → ℕ → List (Str × ℕ) → List (Str × ℕ)
rewards_for budget total_weight [] = []
rewards_for budget total_weight ((address, weight) ∷ ws) =
    let rest = rewards_for budget total_weight ws in
    if ltb 0 (reward_of budget total_weight weight)
    then (address, reward_of budget total_weight weight) ∷ rest
    else rest

abbrev pub add_reward : ℕ → ValidatorRewardState → ValidatorRewardState
add_reward reward v = record v { cumulative_rewards_cil = u128 (v.cumulative_rewards_cil + reward) }

unfoldable pub credit : List (Str × ℕ) → Validators → Validators
credit [] m = m
credit ((address, reward) ∷ rewards) m =
    credit rewards (modify_validator (add_reward reward) address m)

-- The pool after the rewards, before the epoch advances. The sum wraps like the code's.
abbrev pub pay : List (Str × ℕ) → ValidatorRewardPool → ValidatorRewardPool
pay rewards s = record s {
  remaining_cil = saturating_sub s.remaining_cil (u128 (total rewards));
  total_distributed_cil = u128 (s.total_distributed_cil + u128 (total rewards));
  validators = credit rewards s.validators;
}

unfoldable pub distribute_epoch_rewards : ValidatorRewardPool → List (Str × ℕ) × ValidatorRewardPool
distribute_epoch_rewards s =
    let weights = eligible s.current_epoch s.validators in
    let budget = min (epoch_reward_rate s) s.remaining_cil in
    let rewards = rewards_for budget (u128 (total weights)) weights in
    if epoch_reward_rate s == 0
    then ([], advance_epoch s)
    else if s.remaining_cil == 0
    then ([], advance_epoch s)
    else if u128 (total weights) == 0
    then ([], advance_epoch s)
    else (rewards, advance_epoch (pay rewards s))

unfoldable pub sync_reward_from_gossip : Str → ℕ → ValidatorRewardPool → ValidatorRewardPool
sync_reward_from_gossip recipient amount s = record s {
  remaining_cil = saturating_sub s.remaining_cil amount;
  total_distributed_cil = u128 (s.total_distributed_cil + amount);
  validators = modify_validator (add_reward amount) recipient s.validators;
}

unfoldable pub unregister_validator : Str → ValidatorRewardPool → Bool × ValidatorRewardPool
unregister_validator address s =
    (contains address s.validators, record s { validators = erase address s.validators })

unfoldable pub update_stake : Str → ℕ → ValidatorRewardPool → ValidatorRewardPool
update_stake address stake s = record s {
  validators = modify_validator (λ v. record v { stake_cil = stake }) address s.validators;
}
