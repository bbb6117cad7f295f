-- ===== src/Consensus/Slashing/State.antt =====
-- crates/los-consensus/src/slashing.rs: the data of the slashing manager, and the uptime of a profile.
use unauthority_core.Base.{
  ℕ, ◌*◌, ◌/◌, Str, Bool, true, false, Option, List, [], ◌==◌, leb, u32, if◌then◌else◌,
}
use unauthority_core.Base.Map.{Map}
use unauthority_core.Base.Outcome.{Outcome}

abbrev pub double_signing_slash_bps : ℕ
double_signing_slash_bps = 10_000

abbrev pub downtime_slash_bps : ℕ
downtime_slash_bps = 100

abbrev pub downtime_window_blocks : ℕ
downtime_window_blocks = 50_000

abbrev pub min_uptime_bps : ℕ
min_uptime_bps = 9_500

pub data ViolationType : Type 0 where
  double_signing extended_downtime fraudulent_transaction : ViolationType

pub record SlashEvent : Type 0 where
  pub block_height : ℕ  -- u64
  pub validator_address : Str
  pub violation_type : ViolationType
  pub slash_amount_cil : ℕ  -- u128
  pub slash_bps : ℕ  -- u32
  pub timestamp : ℕ  -- u64

pub data ValidatorStatus : Type 0 where
  active slashed banned unstaking : ValidatorStatus

abbrev pub is_banned : ValidatorStatus → Bool
is_banned ValidatorStatus.banned = true
is_banned _ = false

pub record SignatureRecord : Type 0 where
  pub block_height : ℕ  -- u64
  pub signature_hash : Str
  pub timestamp : ℕ  -- u64

pub record ValidatorSafetyProfile : Type 0 where
  pub validator_address : Str
  pub status : ValidatorStatus
  pub total_slashed_cil : ℕ  -- u128
  pub recent_signatures : List SignatureRecord
  pub blocks_participated : ℕ  -- u64
  pub total_blocks_observed : ℕ  -- u64
  pub last_participation_timestamp : ℕ  -- u64
  pub slash_history : List SlashEvent
  pub violation_count : ℕ  -- u32

unfoldable pub new_profile : Str → ValidatorSafetyProfile
new_profile validator_address = record {
  validator_address = validator_address;
  status = ValidatorStatus.active;
  total_slashed_cil = 0;
  recent_signatures = [];
  blocks_participated = 0;
  total_blocks_observed = 0;
  last_participation_timestamp = 0;
  slash_history = [];
  violation_count = 0;
}

unfoldable pub get_uptime_bps : ValidatorSafetyProfile → ℕ
get_uptime_bps profile =
    if profile.total_blocks_observed == 0
    then 10_000
    else u32 ((profile.blocks_participated * 10_000) / profile.total_blocks_observed)

unfoldable pub meets_uptime_requirement : ValidatorSafetyProfile → Bool
meets_uptime_requirement profile = leb min_uptime_bps (get_uptime_bps profile)

pub record SlashProposal : Type 0 where
  pub proposal_id : Str
  pub offender : Str
  pub offense_type : ViolationType
  pub evidence_hash : Str
  pub proposed_at : ℕ  -- u64
  pub proposer : Str
  pub confirmations : List Str
  pub executed : Bool
  pub staked_amount_cil : Option ℕ  -- u128

pub record SlashingManager : Type 0 where
  pub validators : Map Str ValidatorSafetyProfile
  pub slash_events : List SlashEvent
  pub current_block_height : ℕ  -- u64
  pub pending_proposals : Map Str SlashProposal

unfoldable pub new_manager : SlashingManager
new_manager = record {
  validators = [];
  slash_events = [];
  current_block_height = 0;
  pending_proposals = [];
}

-- The errors, which the code tells apart by their text.
pub data SlashError : Type 0 where
  not_registered double_signing_detected already_banned validator_banned already_unstaking :
      SlashError
  offender_not_registered proposal_exists proposal_not_found already_executed : SlashError

-- A method on `&mut self`.
abbrev pub Reply : Type 0 → Type 0
Reply A = Outcome SlashError A × SlashingManager
