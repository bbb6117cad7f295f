-- ===== src/Consensus/Slashing/Confirm.antt =====
-- The ways in which `confirm_slash` ends.
use unauthority_core.Base.{
  ℕ, ◌≡◌, refl, arith, Str, Bool, true, false, Option, some, leb, length, str_key, inl, inr,
  Bool-cases, Option-cases,
}
use unauthority_core.Base.Map.{lookup}
use unauthority_core.Base.Outcome.{ok, err, panic}
use unauthority_core.Consensus.Slashing.State.{
  SlashProposal, SlashingManager, ViolationType, SlashError, Reply,
}
use unauthority_core.Consensus.Slashing.{
  update_stake, with_confirmation, put_proposal, threshold, execute_slash, stake_or_zero, conclude,
  confirm_slash, propose_slash, mark_executed, discard,
}

-- What is executed once the proposal has enough confirmations.
abbrev pub execution : Str → Option ℕ → ℕ → Str → SlashProposal → SlashingManager → Reply (Unit {0})
execution confirmer stake now id proposal s =
    execute_slash proposal.offense_type proposal.offender
      (stake_or_zero (with_confirmation confirmer stake proposal).staked_amount_cil) now
      (put_proposal id (with_confirmation confirmer stake proposal) s)

-- A proposal that is missing, done, short of confirmations, or carried out.
pub data Confirmed (id confirmer : Str) (total now : ℕ) (stake : Option ℕ) (s : SlashingManager)
    (r : Reply Bool) : Type 0 where
  unknown : r ≡ (err SlashError.proposal_not_found, s) → Confirmed id confirmer total now stake s r
  again :
      (proposal : SlashProposal)
      → lookup id s.pending_proposals ≡ some proposal
      → proposal.executed ≡ true
      → r ≡ (err SlashError.already_executed, put_proposal id (update_stake stake proposal) s)
      → Confirmed id confirmer total now stake s r
  waiting :
      (proposal : SlashProposal)
      → lookup id s.pending_proposals ≡ some proposal
      → proposal.executed ≡ false
      → r ≡ (ok false, put_proposal id (with_confirmation confirmer stake proposal) s)
      → Confirmed id confirmer total now stake s r
  concluded :
      (proposal : SlashProposal)
      → lookup id s.pending_proposals ≡ some proposal
      → proposal.executed ≡ false
      → leb (threshold total) (length (with_confirmation confirmer stake proposal).confirmations)
        ≡ true
      → r ≡ conclude id (execution confirmer stake now id proposal s)
      → Confirmed id confirmer total now stake s r

pub confirm-cases :
    (id confirmer : Str) (total now : ℕ) (stake : Option ℕ) (s : SlashingManager)
    → Confirmed id confirmer total now stake s (confirm_slash id confirmer total now stake s)
unfolding confirm_slash
confirm-cases id confirmer total now stake s = elim (Option-cases (lookup id s.pending_proposals)) [
  | inl missing ↦ unknown (rw (confirm_slash, missing) refl)
  | inr (proposal, found) ↦ elim (Bool-cases proposal.executed) [
    | inl done ↦ again proposal found done (rw (confirm_slash, found, done) refl)
    | inr pending ↦
        elim (Bool-cases (
          leb (threshold total)
            (length (with_confirmation confirmer stake proposal).confirmations))) [
              | inl reached ↦
                  concluded proposal found pending reached
                    (rw (confirm_slash, found, pending, reached) refl)
              | inr short ↦
                  waiting proposal found pending (rw (confirm_slash, found, pending, short) refl)
            ]
  ]
]

pub propose-validators :
    (offender : Str) (offense : ViolationType) (evidence proposer : Str) (now : ℕ)
    (s : SlashingManager)
    → (propose_slash offender offense evidence proposer now s).1.validators ≡ s.validators
unfolding propose_slash
propose-validators offender offense evidence proposer now s = ground arith

pub discard-snd : {A : Type 0} (r : Reply A) → (discard r).1 ≡ r.1
discard-snd (ok x, s) = refl
discard-snd (err e, s) = refl
discard-snd (panic, s) = refl

pub mark_executed-validators :
    (id : Str) (s : SlashingManager) → (mark_executed id s).validators ≡ s.validators
unfolding mark_executed
mark_executed-validators id s = ground arith

pub conclude-validators :
    (id : Str) (r : Reply (Unit {0})) → (conclude id r).1.validators ≡ r.1.validators
conclude-validators id (ok x, s) = mark_executed-validators id s
conclude-validators id (err e, s) = refl
conclude-validators id (panic, s) = refl
