-- ===== src/Consensus/Slashing/Confirmations.antt =====
-- What has happened when a proposal is executed, and that none is executed twice.
use unauthority_core.Base.{
  ℕ, ◌*◌, ◌^◌, ◌<◌, ◌≤◌, ◌≡◌, refl, Str, true, false, Option, some, List, arith, length, str_key,
  inl, inr, Bool-cases, Option-cases, leb→le,
}
use unauthority_core.Base.Map.{lookup, lookup-insert_self}
use unauthority_core.Base.Outcome.{ok, err, panic}
use unauthority_core.Consensus.Slashing.State.{
  ViolationType, ValidatorStatus, is_banned, ValidatorSafetyProfile, SlashProposal, SlashingManager,
  Reply, new_manager,
}
use unauthority_core.Consensus.Slashing.{
  on_profile, punish, ban_double_signer, double_signing_event, add_confirmation, threshold, discard,
  execute_slash, mark_executed, conclude, with_confirmation, confirm_slash,
}
use unauthority_core.Consensus.Slashing.Confirm.{
  execution, unknown, again, waiting, concluded, confirm-cases, discard-snd,
  mark_executed-validators,
}
use unauthority_core.Consensus.Slashing.Proposals.{
  AreDistinct, add_confirmation-AreDistinct, execute_slash-pending, run-HasProposals,
  new_manager-HasProposals,
}
use unauthority_core.Consensus.Slashing.Runs.{Op, run}

-- The proposal stands there, executed.
abbrev pub IsDone : Str → SlashingManager → Type 0
IsDone id s =
    (proposal : SlashProposal) × (lookup id s.pending_proposals ≡ some proposal)
    × (proposal.executed ≡ true)

-- The offender of a double signing or a fraud is banned; a downtime is judged by the uptime.
abbrev pub IsPunished : ViolationType → Str → SlashingManager → Type 0
IsPunished ViolationType.extended_downtime offender s = Unit
IsPunished _ offender s =
    (profile : ValidatorSafetyProfile) × (lookup offender s.validators ≡ some profile)
    × (profile.status ≡ ValidatorStatus.banned)

-- What has happened when a confirmation reports that the proposal has been executed.
pub record Executes (id confirmer : Str) (n : ℕ) (s s' : SlashingManager) : Type 0 where
  pub proposal : SlashProposal
  pub found : lookup id s.pending_proposals ≡ some proposal
  pub was_pending : proposal.executed ≡ false
  pub distinct : AreDistinct (add_confirmation confirmer proposal.confirmations)
  pub two_thirds : 2 * n < 3 * length (add_confirmation confirmer proposal.confirmations)
  pub punished : IsPunished proposal.offense_type proposal.offender s'
  pub done : IsDone id s'

banned_after :
    (a : Str) (height stake now : ℕ) (s : SlashingManager) (x : ℕ)
    → (on_profile a (ban_double_signer a height stake now) s).0 ≡ ok x
    → IsPunished ViolationType.double_signing a
        (on_profile a (ban_double_signer a height stake now) s).1
unfolding on_profile ban_double_signer punish
banned_after a height stake now s x e = elim (Option-cases (lookup a s.validators)) [
  | inl missing ↦ absurd (ground arith)
  | inr (profile, found) ↦ elim (Bool-cases (is_banned profile.status)) [
    | inl banned ↦ absurd (ground arith)
    | inr free ↦
        rw (on_profile, found, ban_double_signer, free)
          (
            punish ValidatorStatus.banned (double_signing_event a height stake now) profile,
            lookup-insert_self a _ s.validators,
            refl,
          )
  ]
]

discard-ok : {A : Type 0} (r : Reply A) → (discard r).0 ≡ ok tt → (x : A) × (r.0 ≡ ok x)
discard-ok (ok x, s) e = (x, refl)
discard-ok (err x, s) e = absurd (ground arith)
discard-ok (panic, s) e = absurd (ground arith)

execute_slash-IsPunished :
    (offense : ViolationType) (offender : Str) (stake now : ℕ) (s : SlashingManager)
    → (execute_slash offense offender stake now s).0 ≡ ok tt
    → IsPunished offense offender (execute_slash offense offender stake now s).1
unfolding execute_slash
execute_slash-IsPunished ViolationType.extended_downtime offender stake now s e = tt
execute_slash-IsPunished ViolationType.double_signing offender stake now s e =
    let (x, q) = discard-ok _ e in
    rw discard-snd (banned_after offender s.current_block_height stake now s x q)
execute_slash-IsPunished ViolationType.fraudulent_transaction offender stake now s e =
    let (x, q) = discard-ok _ e in
    rw discard-snd (banned_after offender s.current_block_height stake now s x q)

conclude-true :
    (id : Str) (r : Reply (Unit {0})) (s' : SlashingManager)
    → conclude id r ≡ (ok true, s')
    → (r.0 ≡ ok tt) × (s' ≡ mark_executed id r.1)
conclude-true id (ok tt, s) s' e = (refl, ground arith)
conclude-true id (err x, s) s' e = absurd (ground arith)
conclude-true id (panic, s) s' e = absurd (ground arith)

mark_executed-IsDone :
    (id : Str) (proposal : SlashProposal) (s : SlashingManager)
    → lookup id s.pending_proposals ≡ some proposal
    → IsDone id (mark_executed id s)
unfolding mark_executed
mark_executed-IsDone id proposal s found =
    rw (mark_executed, found)
      (record proposal { executed = true }, lookup-insert_self id _ s.pending_proposals, refl)

marked-IsPunished :
    (offense : ViolationType) (offender id : Str) (s : SlashingManager)
    → IsPunished offense offender s
    → IsPunished offense offender (mark_executed id s)
marked-IsPunished ViolationType.extended_downtime offender id s h = tt
marked-IsPunished ViolationType.double_signing offender id s h = rw mark_executed-validators h
marked-IsPunished ViolationType.fraudulent_transaction offender id s h =
    rw mark_executed-validators h

threshold-two_thirds : (n k : ℕ) → n < 2 ^ 63 → threshold n ≤ k → 2 * n < 3 * k
unfolding threshold
threshold-two_thirds n k small h = omega arith

-- After any run of a new manager: if a confirmation reports that a proposal has been executed, the
-- proposal was stored and had not been executed, it has confirmations of more than two thirds of
-- the number of validators that the caller states (less than 2^63), all by different names, it is
-- now marked as executed, and the offender is banned, unless the offense is downtime.
pub slash_by_quorum :
    (ops : List Op) (id confirmer : Str) (n now : ℕ) (stake : Option ℕ) (s' : SlashingManager)
    → n < 2 ^ 63
    → confirm_slash id confirmer n now stake (run ops new_manager) ≡ (ok true, s')
    → Executes id confirmer n (run ops new_manager) s'
slash_by_quorum ops id confirmer n now stake s' small e =
    let s : SlashingManager = run ops new_manager in
    elim (confirm-cases id confirmer n now stake s) [
      | unknown q ↦ absurd (ground arith)
      | again proposal found done q ↦ absurd (ground arith)
      | waiting proposal found pending q ↦ absurd (ground arith)
      | concluded proposal found pending reached q ↦
          let r : Reply (Unit {0}) = execution confirmer stake now id proposal s in
          let (went_well, marked) = conclude-true id r s' (cc) in
          let stored =
            (run-HasProposals ops new_manager new_manager-HasProposals) id proposal found in
          record {
            proposal = proposal;
            found = found;
            was_pending = pending;
            distinct =
                add_confirmation-AreDistinct confirmer proposal.confirmations stored.distinct;
            two_thirds = threshold-two_thirds n _ small (leb→le _ _ reached);
            punished = rw marked (
                marked-IsPunished proposal.offense_type proposal.offender id r.1 (
                  execute_slash-IsPunished proposal.offense_type proposal.offender _ now _
                    went_well));
            done = rw marked (
                mark_executed-IsDone id (with_confirmation confirmer stake proposal) r.1
                  (rw execute_slash-pending (lookup-insert_self id _ s.pending_proposals)));
          }
    ]
