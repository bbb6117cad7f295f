-- ===== src/Consensus/Slashing/Tests.antt =====
-- Runs of the slashing manager, and the theorems at those runs.
use unauthority_core.Base.{
  ◌+◌, ◌*◌, ◌≤◌, ◌<◌, ◌≡◌, ◌⊎◌, refl, Str, codes, true, none, some, List, [], ◌∷◌, arith, str_eq,
  decimal, str_key,
}
use unauthority_core.Base.Map.{lookup, contains, insert, replace, insert_new, erase}
use unauthority_core.Base.Outcome.{ok, err}
use unauthority_core.Consensus.Slashing.State.{
  ViolationType, ValidatorStatus, ValidatorSafetyProfile, new_profile, get_uptime_bps,
  meets_uptime_requirement, SlashingManager, new_manager, SlashError,
}
use unauthority_core.Consensus.Slashing.{
  on_profile, register_validator, sign, punish, ban_double_signer, double_signing_event,
  participate, observe, downtime_slash, judge_downtime, ban, unstake, update_block_height,
  remove_validator, clear, make_proposal_id, propose_slash, add_confirmation, threshold,
  execute_slash, mark_executed, confirm_slash,
}
use unauthority_core.Consensus.Slashing.Runs.{
  Op, registers, signs, double_signs, unstakes, proposes, confirms, step, run,
}
use unauthority_core.Consensus.Slashing.Sound.{IsSound}
use unauthority_core.Consensus.Slashing.Profiles.{profiles-IsSound}
use unauthority_core.Consensus.Slashing.Bans.{StaysBanned, ban_is_final}
use unauthority_core.Consensus.Slashing.Confirmations.{Executes, slash_by_quorum}
use unauthority_core.Consensus.Slashing.Once.{executes_once}
use unauthority_core.Consensus.Slashing.Downtime.{SlashesDowntime, downtime_judged}

abbrev mallory : Str
mallory = codes "mallory"

-- All that a run computes with, under one name.
engine : Unit {0}
unfolding run step new_manager new_profile on_profile register_validator sign punish
    ban_double_signer participate observe downtime_slash judge_downtime ban unstake
    update_block_height remove_validator clear make_proposal_id propose_slash add_confirmation
    threshold execute_slash mark_executed confirm_slash get_uptime_bps meets_uptime_requirement
    str_eq decimal lookup contains insert replace insert_new erase
engine = tt

-- A validator signs two heights and is then slashed.
abbrev caught : List Op
caught =
    registers mallory
    ∷ signs mallory 7 (codes "b7") 100
    ∷ signs mallory 8 (codes "b8") 101
    ∷ double_signs mallory 8 500 102
    ∷ []

abbrev caught_profile : ValidatorSafetyProfile
caught_profile =
    record (punish ValidatorStatus.banned (double_signing_event mallory 8 500 102)
      (new_profile mallory)) {
        recent_signatures =
            record { block_height = 7; signature_hash = codes "b7"; timestamp = 100 }
            ∷ record { block_height = 8; signature_hash = codes "b8"; timestamp = 101 }
            ∷ [];
      }

caught_found : lookup mallory (run caught new_manager).validators ≡ some caught_profile
unfolding engine
caught_found = refl

-- A second block at a height that was signed is noticed.
second_block :
    (on_profile mallory (sign 8 (codes "other") 103) (run caught new_manager)).0
    ≡ err SlashError.double_signing_detected
unfolding engine
second_block = refl

profiles-IsSound_example : IsSound mallory caught_profile
profiles-IsSound_example = profiles-IsSound caught mallory caught_profile caught_found

ban_is_final_example :
    StaysBanned caught_profile.total_slashed_cil caught_profile.slash_history mallory (
      run
        (unstakes mallory ∷ double_signs mallory 9 500 104 ∷ registers mallory ∷ [])
        (run caught new_manager))
ban_is_final_example =
    ban_is_final mallory caught_profile
      (unstakes mallory ∷ double_signs mallory 9 500 104 ∷ registers mallory ∷ [])
      (run caught new_manager) caught_found (unfold engine in refl) refl

-- Of four validators, three have to confirm.
abbrev proposal_id : Str
proposal_id = codes "slash_mallory_e1_50"

abbrev proposed : List Op
proposed =
    registers mallory
    ∷ proposes mallory ViolationType.fraudulent_transaction (codes "e1") (codes "a") 50
    ∷ confirms proposal_id (codes "b") 4 51 (some 900)
    ∷ confirms proposal_id (codes "b") 4 52 none
    ∷ []

abbrev executed_manager : SlashingManager
executed_manager = (confirm_slash proposal_id (codes "c") 4 53 none (run proposed new_manager)).1

run_third_confirmation :
    confirm_slash proposal_id (codes "c") 4 53 none (run proposed new_manager)
    ≡ (ok true, executed_manager)
unfolding engine
run_third_confirmation = refl

slash_by_quorum_example :
    Executes proposal_id (codes "c") 4 (run proposed new_manager) executed_manager
slash_by_quorum_example =
    slash_by_quorum proposed proposal_id (codes "c") 4 53 none executed_manager (omega arith)
      run_third_confirmation

executes_once_example :
    (confirm_slash proposal_id (codes "d") 4 54 (some 7) (
      run
        (registers (codes "d")
          ∷ proposes mallory ViolationType.fraudulent_transaction (codes "e1") (codes "a") 50
          ∷ [])
        executed_manager)).0
    ≡ err SlashError.already_executed
executes_once_example =
    executes_once proposed
      (registers (codes "d")
        ∷ proposes mallory ViolationType.fraudulent_transaction (codes "e1") (codes "a") 50
        ∷ [])
      proposal_id (codes "c") (codes "d") 4 53 4 54 none (some 7) executed_manager (omega arith)
      run_third_confirmation refl

-- A validator that took part in 40,000 of 50,000 blocks.
abbrev lazy_profile : ValidatorSafetyProfile
lazy_profile = record (new_profile mallory) {
  blocks_participated = 40_000;
  total_blocks_observed = 50_000;
}

downtime_judged_example :
    ((50_000 ≤ lazy_profile.total_blocks_observed)
      × (lazy_profile.blocks_participated * 100 < 95 * lazy_profile.total_blocks_observed)
      × (950 ≤ 100 * downtime_slash 950)
      × (100 * downtime_slash 950 < 950 + 100)
      × SlashesDowntime (downtime_slash 950) (judge_downtime mallory 9 950 60 lazy_profile))
    ⊎ (((lazy_profile.total_blocks_observed < 50_000)
          ⊎ (95 * lazy_profile.total_blocks_observed ≤ lazy_profile.blocks_participated * 100))
        × (judge_downtime mallory 9 950 60 lazy_profile ≡ ok (none, lazy_profile, [])))
downtime_judged_example =
    downtime_judged mallory 9 950 60 lazy_profile (unfold engine in λ e. absurd (ground arith))
      (omega arith) (omega arith)
