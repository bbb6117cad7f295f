-- ===== src/Rewards/Runs.antt =====
-- Runs of the reward pool of the node that distributes the rewards.
use unauthority_core.Base.{ℕ, ◌^◌, ◌<◌, Str, Bool, List, [], ◌∷◌, str_key}
use unauthority_core.Base.Map.{Set}
use unauthority_core.Rewards.State.{ValidatorRewardPool}
use unauthority_core.Rewards.{
  register_validator, record_heartbeat, record_heartbeat_once, set_expected_heartbeats,
  catch_up_epochs, advance_epoch, distribute_epoch_rewards, unregister_validator, update_stake,
}

-- The methods, with their arguments.
pub data Op : Type 0 where
  registers : Str → Bool → ℕ → Op
  beats : Str → Op
  beats_once : Str → Set Str → Op
  expects : ℕ → Op
  catches_up : ℕ → Op
  advances : Op
  distributes : Op
  unregisters : Str → Op
  restakes : Str → ℕ → Op

unfoldable pub step : Op → ValidatorRewardPool → ValidatorRewardPool
step (registers a is_genesis stake) s = register_validator a is_genesis stake s
step (beats a) s = record_heartbeat a s
step (beats_once a seen) s = (record_heartbeat_once a seen s).2
step (expects interval) s = set_expected_heartbeats interval s
step (catches_up now) s = (catch_up_epochs now s).1
step advances s = advance_epoch s
step distributes s = (distribute_epoch_rewards s).1
step (unregisters a) s = (unregister_validator a s).1
step (restakes a stake) s = update_stake a stake s

unfoldable pub run : List Op → ValidatorRewardPool → ValidatorRewardPool
run [] s = s
run (op ∷ ops) s = run ops (step op s)

-- The stakes in the arguments are u128.
abbrev pub FitsOp : Op → Type 0
FitsOp (registers a is_genesis stake) = stake < 2 ^ 128
FitsOp (restakes a stake) = stake < 2 ^ 128
FitsOp _ = Unit
