-- ===== src/Voting.antt =====
-- crates/los-consensus/src/voting.rs: voting power and the count of votes for a proposal.
pub mod Majority
mod Tests
use unauthority_core.Base.{
  ℕ, ◌+◌, ◌*◌, ◌/◌, Str, str_key, str_eq, Bool, true, false, ◌&&◌, Option, none, some, [], ◌∷◌, ltb,
  if◌then◌else◌, min, u32, u128,
}
use unauthority_core.Base.Map.{Map, lookup, insert}
use unauthority_core.Base.Outcome.{Outcome, ok, err}
use unauthority_core.Rewards.State.{isqrt}

abbrev pub min_stake_cil : ℕ
min_stake_cil = 100_000_000_000_000

abbrev pub max_stake_for_voting_cil : ℕ
max_stake_for_voting_cil = 2_193_623_600_000_000_000_000

pub record ValidatorVote : Type 0 where
  pub validator_address : Str
  pub staked_amount_cil : ℕ  -- u128
  pub voting_power : ℕ  -- u128
  pub vote_preference : Str
  pub is_active : Bool

pub data VotingError : Type 0 where
  stake_exceeds_maximum validator_not_found : VotingError

-- The struct VotingSystem.
abbrev pub VotingSystem : Type 0
VotingSystem = Map Str ValidatorVote

unfoldable pub calculate_voting_power : ℕ → ℕ
calculate_voting_power staked_amount_cil =
    if ltb staked_amount_cil min_stake_cil
    then 0
    else isqrt (min staked_amount_cil max_stake_for_voting_cil)

unfoldable pub new_vote : Str → ℕ → Str → Bool → ValidatorVote
new_vote validator_address staked_amount_cil vote_preference is_active = record {
  validator_address = validator_address;
  staked_amount_cil = staked_amount_cil;
  voting_power = calculate_voting_power staked_amount_cil;
  vote_preference = vote_preference;
  is_active = is_active;
}

unfoldable pub register_validator :
    Str → ℕ → Str → Bool → VotingSystem → Outcome VotingError ℕ × VotingSystem
register_validator address stake preference is_active s =
    if ltb max_stake_for_voting_cil stake
    then (err VotingError.stake_exceeds_maximum, s)
    else (let vote = new_vote address stake preference is_active in
        (ok vote.voting_power, insert address vote s))

unfoldable pub update_stake : Str → ℕ → VotingSystem → Outcome VotingError ℕ × VotingSystem
update_stake address new_stake_cil s = elim (lookup address s) [
  | none ↦ (err VotingError.validator_not_found, s)
  | some v ↦
      let power = calculate_voting_power new_stake_cil in
      (
        ok power,
        insert address (record v { staked_amount_cil = new_stake_cil; voting_power = power }) s,
      )
]

unfoldable pub update_vote_preference :
    Str → Str → VotingSystem → Outcome VotingError (Unit {0}) × VotingSystem
update_vote_preference address preference s = elim (lookup address s) [
  | none ↦ (err VotingError.validator_not_found, s)
  | some v ↦ (ok tt, insert address (record v { vote_preference = preference }) s)
]

-- The sum of the powers of those that a test selects.
unfoldable pub sum_power : (ValidatorVote → Bool) → VotingSystem → ℕ
sum_power keep [] = 0
sum_power keep ((k, v) ∷ s) =
    let rest = sum_power keep s in if keep v then u128 (v.voting_power + rest) else rest

abbrev pub prefers : Str → ValidatorVote → Bool
prefers proposal_id v = v.is_active && str_eq v.vote_preference proposal_id

abbrev pub active : ValidatorVote → Bool
active v = v.is_active

-- The votes, their part of the power in basis points, and whether that is over 5,000.
unfoldable pub calculate_proposal_consensus : Str → VotingSystem → ℕ × ℕ × Bool
calculate_proposal_consensus proposal_id s =
    let votes_for = sum_power (prefers proposal_id) s in
    let total_voting_power = sum_power active s in
    let percentage_bps =
      if ltb 0 total_voting_power
      then u32 (u128 (votes_for * 10_000) / total_voting_power)
      else 0 in
    (votes_for, percentage_bps, ltb 5_000 percentage_bps)
