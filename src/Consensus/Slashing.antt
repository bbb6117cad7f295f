-- ===== src/Consensus/Slashing.antt =====
-- crates/los-consensus/src/slashing.rs: the operations of SlashingManager. What an operation does
-- to the profile of one validator is a `Change`, which `on_profile` applies to the manager.
pub mod State
pub mod Runs
pub mod Confirm
pub mod Sound
pub mod Profiles
pub mod Bans
pub mod Proposals
pub mod Confirmations
pub mod Once
pub mod Downtime
mod Tests
use unauthority_core.Base.{
  ℕ, ◌+◌, ◌*◌, ◌/◌, ◌%◌, Str, codes, str_eq, decimal, Bool, true, false, not, ◌&&◌, Option, none,
  some, List, [], ◌∷◌, ◌++◌, ◌==◌, leb, ltb, u32, u64, u128, if◌then◌else◌, length, drop, any,
  str_key,
}
use unauthority_core.Base.Map.{lookup, contains, insert, erase}
use unauthority_core.Base.Outcome.{Outcome, ok, err, panic}
use unauthority_core.Consensus.Slashing.State.{
  ViolationType, SlashEvent, ValidatorStatus, is_banned, SignatureRecord, ValidatorSafetyProfile,
  new_profile, meets_uptime_requirement, SlashProposal, SlashingManager, new_manager, SlashError,
  Reply, double_signing_slash_bps, downtime_slash_bps, downtime_window_blocks,
}

-- An error, or a value, the profile after it, and the events that are logged.
abbrev pub Change : Type 0 → Type 0
Change A =
    ValidatorSafetyProfile → Outcome SlashError (A × ValidatorSafetyProfile × List SlashEvent)

-- `get_mut` of the profile, and the error if there is none.
unfoldable pub on_profile : {A : Type 0} → Str → Change A → SlashingManager → Reply A
on_profile validator_address change s = elim (lookup validator_address s.validators) [
  | none ↦ (err SlashError.not_registered, s)
  | some profile ↦ elim (change profile) [
    | ok (a, profile', events) ↦ (
      ok a,
      record s {
        validators = insert validator_address profile' s.validators;
        slash_events = s.slash_events ++ events;
      },
    )
    | err e ↦ (err e, s)
    | panic ↦ (panic, s)
  ]
]

unfoldable pub register_validator : Str → SlashingManager → SlashingManager
register_validator validator_address s = elim (lookup validator_address s.validators) [
  | none ↦ record s {
    validators = insert validator_address (new_profile validator_address) s.validators;
  }
  | some _ ↦ s
]

-- Another block was signed at this height.
abbrev pub conflicts : ℕ → Str → SignatureRecord → Bool
conflicts block_height signature_hash sig =
    (sig.block_height == block_height) && not (str_eq sig.signature_hash signature_hash)

-- `pop_front` when there are more than a thousand.
abbrev pub keep_recent : List SignatureRecord → List SignatureRecord
keep_recent sigs = if ltb 1_000 (length sigs) then drop 1 sigs else sigs

unfoldable pub sign : ℕ → Str → ℕ → Change (Unit {0})
sign block_height signature_hash timestamp profile =
    if any (conflicts block_height signature_hash) profile.recent_signatures
    then err SlashError.double_signing_detected
    else ok (
      tt,
      record profile {
        recent_signatures = keep_recent (
            profile.recent_signatures
            ++ (record {
              block_height = block_height;
              signature_hash = signature_hash;
              timestamp = timestamp;
            }
                ∷ []));
      },
      [],
    )

abbrev pub record_signature : Str → ℕ → Str → ℕ → SlashingManager → Reply (Unit {0})
record_signature validator_address block_height signature_hash timestamp =
    on_profile validator_address (sign block_height signature_hash timestamp)

-- The total, the status, the count and the history after a slash.
unfoldable pub punish :
    ValidatorStatus → SlashEvent → ValidatorSafetyProfile → ValidatorSafetyProfile
punish status event profile = record profile {
  total_slashed_cil = u128 (profile.total_slashed_cil + event.slash_amount_cil);
  status = status;
  violation_count = u32 (profile.violation_count + 1);
  slash_history = profile.slash_history ++ (event ∷ []);
}

abbrev pub double_signing_event : Str → ℕ → ℕ → ℕ → SlashEvent
double_signing_event validator_address block_height staked_amount_cil timestamp = record {
  block_height = block_height;
  validator_address = validator_address;
  violation_type = ViolationType.double_signing;
  slash_amount_cil = staked_amount_cil;
  slash_bps = double_signing_slash_bps;
  timestamp = timestamp;
}

unfoldable pub ban_double_signer : Str → ℕ → ℕ → ℕ → Change ℕ
ban_double_signer validator_address block_height staked_amount_cil timestamp profile =
    let event = double_signing_event validator_address block_height staked_amount_cil timestamp in
    if is_banned profile.status
    then err SlashError.already_banned
    else ok (staked_amount_cil, punish ValidatorStatus.banned event profile, event ∷ [])

abbrev pub slash_double_signing : Str → ℕ → ℕ → ℕ → SlashingManager → Reply ℕ
slash_double_signing validator_address block_height staked_amount_cil timestamp =
    on_profile validator_address
      (ban_double_signer validator_address block_height staked_amount_cil timestamp)

unfoldable pub participate : ℕ → Change (Unit {0})
participate timestamp profile = ok (
  tt,
  record profile {
    blocks_participated = u64 (profile.blocks_participated + 1);
    total_blocks_observed = u64 (profile.total_blocks_observed + 1);
    last_participation_timestamp = timestamp;
  },
  [],
)

abbrev pub record_block_participation : Str → ℕ → ℕ → SlashingManager → Reply (Unit {0})
record_block_participation validator_address block_height timestamp =
    on_profile validator_address (participate timestamp)

unfoldable pub observe : Change (Unit {0})
observe profile =
    ok (tt, record profile { total_blocks_observed = u64 (profile.total_blocks_observed + 1) }, [])

abbrev pub record_block_observation : Str → SlashingManager → Reply (Unit {0})
record_block_observation validator_address = on_profile validator_address observe

abbrev pub div_ceil : ℕ → ℕ → ℕ
div_ceil a b = if a % b == 0 then a / b else a / b + 1

unfoldable pub downtime_slash : ℕ → ℕ
downtime_slash staked_amount_cil =
    if leb 10_000 downtime_slash_bps
    then staked_amount_cil
    else div_ceil (u128 (staked_amount_cil * downtime_slash_bps)) 10_000

abbrev pub downtime_event : Str → ℕ → ℕ → ℕ → SlashEvent
downtime_event validator_address block_height staked_amount_cil timestamp = record {
  block_height = block_height;
  validator_address = validator_address;
  violation_type = ViolationType.extended_downtime;
  slash_amount_cil = downtime_slash staked_amount_cil;
  slash_bps = downtime_slash_bps;
  timestamp = timestamp;
}

unfoldable pub judge_downtime : Str → ℕ → ℕ → ℕ → Change (Option ℕ)
judge_downtime validator_address block_height staked_amount_cil timestamp profile =
    let event = downtime_event validator_address block_height staked_amount_cil timestamp in
    if is_banned profile.status
    then err SlashError.validator_banned
    else if leb downtime_window_blocks profile.total_blocks_observed
        && not (meets_uptime_requirement profile)
    then ok (
      some (downtime_slash staked_amount_cil),
      record (punish ValidatorStatus.slashed event profile) {
        blocks_participated = 0;
        total_blocks_observed = 0;
      },
      event ∷ [],
    )
    else ok (none, profile, [])

abbrev pub check_and_slash_downtime : Str → ℕ → ℕ → ℕ → SlashingManager → Reply (Option ℕ)
check_and_slash_downtime validator_address block_height staked_amount_cil timestamp =
    on_profile validator_address
      (judge_downtime validator_address block_height staked_amount_cil timestamp)

unfoldable pub ban : Change (Unit {0})
ban profile = ok (tt, record profile { status = ValidatorStatus.banned }, [])

abbrev pub emergency_ban : Str → Str → SlashingManager → Reply (Unit {0})
emergency_ban validator_address reason = on_profile validator_address ban

unfoldable pub unstake : Change (Unit {0})
unstake profile = elim profile.status [
  | ValidatorStatus.banned ↦ err SlashError.validator_banned
  | ValidatorStatus.unstaking ↦ err SlashError.already_unstaking
  | _ ↦ ok (tt, record profile { status = ValidatorStatus.unstaking }, [])
]

abbrev pub set_unstaking : Str → SlashingManager → Reply (Unit {0})
set_unstaking validator_address = on_profile validator_address unstake

unfoldable pub update_block_height : ℕ → SlashingManager → SlashingManager
update_block_height height s = record s { current_block_height = height }

unfoldable pub remove_validator : Str → SlashingManager → Bool × SlashingManager
remove_validator validator_address s = (
  contains validator_address s.validators,
  record s { validators = erase validator_address s.validators },
)

unfoldable pub clear : SlashingManager → SlashingManager
clear s = new_manager

unfoldable pub make_proposal_id : Str → Str → ℕ → Str
make_proposal_id offender evidence_hash timestamp =
    codes "slash_" ++ offender ++ codes "_" ++ evidence_hash ++ codes "_" ++ decimal timestamp

unfoldable pub propose_slash : Str → ViolationType → Str → Str → ℕ → SlashingManager → Reply Str
propose_slash offender offense evidence_hash proposer timestamp s =
    let id = make_proposal_id offender evidence_hash timestamp in
    if not (contains offender s.validators)
    then (err SlashError.offender_not_registered, s)
    else if contains id s.pending_proposals
    then (err SlashError.proposal_exists, s)
    else (
      ok id,
      record s {
        pending_proposals =
            insert id
              (record {
                proposal_id = id;
                offender = offender;
                offense_type = offense;
                evidence_hash = evidence_hash;
                proposed_at = timestamp;
                proposer = proposer;
                confirmations = proposer ∷ [];
                executed = false;
                staked_amount_cil = none;
              })
              s.pending_proposals;
      },
    )

-- The stake that the caller reads from the ledger replaces the one that is stored.
abbrev pub newer_stake : Option ℕ → Option ℕ → Option ℕ
newer_stake none old = old
newer_stake (some amount) old = some amount

abbrev pub update_stake : Option ℕ → SlashProposal → SlashProposal
update_stake stake proposal = record proposal {
  staked_amount_cil = newer_stake stake proposal.staked_amount_cil;
}

unfoldable pub add_confirmation : Str → List Str → List Str
add_confirmation confirmer confirmations =
    if any (str_eq confirmer) confirmations
    then confirmations
    else confirmations ++ (confirmer ∷ [])

unfoldable pub threshold : ℕ → ℕ
threshold total_validators = u64 (total_validators * 2) / 3 + 1

-- `slash(...)?;`
abbrev pub discard : {A : Type 0} → Reply A → Reply (Unit {0})
discard (ok a, s) = (ok tt, s)
discard (err e, s) = (err e, s)
discard (panic, s) = (panic, s)

abbrev pub stake_or_zero : Option ℕ → ℕ
stake_or_zero none = 0
stake_or_zero (some amount) = amount

unfoldable pub execute_slash : ViolationType → Str → ℕ → ℕ → SlashingManager → Reply (Unit {0})
execute_slash ViolationType.extended_downtime offender stake timestamp s =
    discard (check_and_slash_downtime offender s.current_block_height stake timestamp s)
execute_slash ViolationType.double_signing offender stake timestamp s =
    discard (slash_double_signing offender s.current_block_height stake timestamp s)
execute_slash ViolationType.fraudulent_transaction offender stake timestamp s =
    discard (slash_double_signing offender s.current_block_height stake timestamp s)

unfoldable pub mark_executed : Str → SlashingManager → SlashingManager
mark_executed id s = elim (lookup id s.pending_proposals) [
  | none ↦ s
  | some proposal ↦ record s {
    pending_proposals = insert id (record proposal { executed = true }) s.pending_proposals;
  }
]

-- The proposal is marked if its slash did not fail.
abbrev pub conclude : Str → Reply (Unit {0}) → Reply Bool
conclude id (ok _, s) = (ok true, mark_executed id s)
conclude id (err e, s) = (err e, s)
conclude id (panic, s) = (panic, s)

-- The proposal with the new stake, and then with the new confirmation.
abbrev pub with_confirmation : Str → Option ℕ → SlashProposal → SlashProposal
with_confirmation confirmer stake proposal = record (update_stake stake proposal) {
  confirmations = add_confirmation confirmer proposal.confirmations;
}

abbrev pub put_proposal : Str → SlashProposal → SlashingManager → SlashingManager
put_proposal id proposal s = record s { pending_proposals = insert id proposal s.pending_proposals }

unfoldable pub confirm_slash : Str → Str → ℕ → ℕ → Option ℕ → SlashingManager → Reply Bool
confirm_slash id confirmer total_validators timestamp stake s =
    elim (lookup id s.pending_proposals) [
      | none ↦ (err SlashError.proposal_not_found, s)
      | some proposal ↦
          if proposal.executed
          then (err SlashError.already_executed, put_proposal id (update_stake stake proposal) s)
          else let confirmed = with_confirmation confirmer stake proposal in
            let s' = put_proposal id confirmed s in
            if leb (threshold total_validators) (length confirmed.confirmations)
            then conclude id (
                execute_slash confirmed.offense_type confirmed.offender
                  (stake_or_zero confirmed.staked_amount_cil) timestamp s')
            else (ok false, s')
    ]
