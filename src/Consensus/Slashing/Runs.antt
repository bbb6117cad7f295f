-- ===== src/Consensus/Slashing/Runs.antt =====
-- Runs of the slashing manager: any sequence of calls of its methods.
use unauthority_core.Base.{ℕ, Str, Option, List, [], ◌∷◌}
use unauthority_core.Consensus.Slashing.State.{ViolationType, SlashingManager}
use unauthority_core.Consensus.Slashing.{
  register_validator, record_signature, slash_double_signing, record_block_participation,
  record_block_observation, check_and_slash_downtime, emergency_ban, set_unstaking,
  update_block_height, remove_validator, clear, propose_slash, confirm_slash,
}

-- The methods that change the manager, with their arguments.
pub data Op : Type 0 where
  registers : Str → Op
  signs : Str → ℕ → Str → ℕ → Op
  double_signs : Str → ℕ → ℕ → ℕ → Op
  participates : Str → ℕ → ℕ → Op
  observes : Str → Op
  checks_downtime : Str → ℕ → ℕ → ℕ → Op
  bans : Str → Str → Op
  unstakes : Str → Op
  reaches_height : ℕ → Op
  proposes : Str → ViolationType → Str → Str → ℕ → Op
  confirms : Str → Str → ℕ → ℕ → Option ℕ → Op
  removes : Str → Op
  clears : Op

unfoldable pub step : Op → SlashingManager → SlashingManager
step (registers a) s = register_validator a s
step (signs a height hash now) s = (record_signature a height hash now s).1
step (double_signs a height stake now) s = (slash_double_signing a height stake now s).1
step (participates a height now) s = (record_block_participation a height now s).1
step (observes a) s = (record_block_observation a s).1
step (checks_downtime a height stake now) s = (check_and_slash_downtime a height stake now s).1
step (bans a reason) s = (emergency_ban a reason s).1
step (unstakes a) s = (set_unstaking a s).1
step (reaches_height height) s = update_block_height height s
step (proposes offender offense evidence proposer now) s =
    (propose_slash offender offense evidence proposer now s).1
step (confirms id confirmer total now stake) s = (confirm_slash id confirmer total now stake s).1
step (removes a) s = (remove_validator a s).1
step clears s = clear s

unfoldable pub run : List Op → SlashingManager → SlashingManager
run [] s = s
run (op ∷ ops) s = run ops (step op s)
