-- ===== src/Consensus/Slashing/Bans.antt =====
-- A ban is final: what a banned validator's profile keeps over any run.
use unauthority_core.Base.{
  ℕ, ◌≡◌, refl, Str, str_eq, str_eq_iff, Bool, true, false, Option, some, List, [], ◌∷◌, arith, any,
  str_key, inl, inr, Bool-cases, Option-cases,
}
use unauthority_core.Base.Map.{lookup, lookup-insert, lookup-insert_self, lookup-erase_ne}
use unauthority_core.Base.Outcome.{ok, Outcome-cases}
use unauthority_core.Consensus.Slashing.State.{
  ViolationType, SlashEvent, ValidatorStatus, ValidatorSafetyProfile, new_profile, SlashingManager,
}
use unauthority_core.Consensus.Slashing.{
  Change, on_profile, register_validator, sign, ban_double_signer, participate, observe,
  judge_downtime, ban, unstake, update_block_height, remove_validator, propose_slash, execute_slash,
  conclude, confirm_slash, stake_or_zero, with_confirmation, put_proposal,
}
use unauthority_core.Consensus.Slashing.Confirm.{
  unknown, again, waiting, concluded, confirm-cases, propose-validators, discard-snd,
  conclude-validators, execution,
}
use unauthority_core.Consensus.Slashing.Runs.{
  Op, registers, signs, double_signs, participates, observes, checks_downtime, bans, unstakes,
  reaches_height, proposes, confirms, removes, clears, step, run,
}

-- Whether a call deletes the record of this validator.
abbrev pub forgets : Str → Op → Bool
forgets a (removes b) = str_eq a b
forgets a clears = true
forgets a _ = false

module _ (total : ℕ) (history : List SlashEvent) where
  -- Banned, with this total and this history of slashes.
  abbrev pub IsFinal : ValidatorSafetyProfile → Type 0
  IsFinal profile =
      (profile.status ≡ ValidatorStatus.banned)
      × (profile.total_slashed_cil ≡ total)
      × (profile.slash_history ≡ history)

  abbrev pub StaysBanned : Str → SlashingManager → Type 0
  StaysBanned a s =
      (profile : ValidatorSafetyProfile) × (lookup a s.validators ≡ some profile) × IsFinal profile

  abbrev KeepsFinal : {A : Type 0} → Change A → Type 0
  KeepsFinal {A = A} change =
      (profile : ValidatorSafetyProfile) (x : A) (profile' : ValidatorSafetyProfile)
      (events : List SlashEvent)
      → change profile ≡ ok (x, profile', events)
      → IsFinal profile
      → IsFinal profile'

  sign-KeepsFinal : (height : ℕ) (hash : Str) (now : ℕ) → KeepsFinal (sign height hash now)
  unfolding sign
  sign-KeepsFinal height hash now profile x profile' events e f = ground arith

  participate-KeepsFinal : (now : ℕ) → KeepsFinal (participate now)
  unfolding participate
  participate-KeepsFinal now profile x profile' events e f = ground arith

  observe-KeepsFinal : KeepsFinal observe
  unfolding observe
  observe-KeepsFinal profile x profile' events e f = ground arith

  ban-KeepsFinal : KeepsFinal ban
  unfolding ban
  ban-KeepsFinal profile x profile' events e f = ground arith

  unstake-KeepsFinal : KeepsFinal unstake
  unfolding unstake
  unstake-KeepsFinal profile x profile' events e f = ground arith

  ban_double_signer-KeepsFinal :
      (a : Str) (height stake now : ℕ) → KeepsFinal (ban_double_signer a height stake now)
  unfolding ban_double_signer
  ban_double_signer-KeepsFinal a height stake now profile x profile' events e f = ground arith

  judge_downtime-KeepsFinal :
      (a : Str) (height stake now : ℕ) → KeepsFinal (judge_downtime a height stake now)
  unfolding judge_downtime
  judge_downtime-KeepsFinal a height stake now profile x profile' events e f = ground arith

  on_profile-StaysBanned :
      {A : Type 0} (a b : Str) (change : Change A) (s : SlashingManager)
      → KeepsFinal change
      → StaysBanned a s
      → StaysBanned a (on_profile b change s).1
  unfolding on_profile
  on_profile-StaysBanned a b change s keeps (old, at_a, f) =
      elim (Option-cases (lookup b s.validators)) [
        | inl missing ↦ rw (on_profile, missing) (old, at_a, f)
        | inr (profile, found) ↦ elim (Outcome-cases (change profile)) [
          | inl ((x, profile', events), e) ↦ elim (Bool-cases (str_eq a b)) [
            | inl same ↦
                let same_key : a ≡ b = (str_eq_iff a b).0 same in
                let same_profile : old ≡ profile = ground (arith, same_key) in
                rw (on_profile, found, e, same_key)
                  (
                    profile',
                    lookup-insert_self b profile' s.validators,
                    keeps profile x profile' events e (rw⁻¹ same_profile f),
                  )
            | inr other ↦
                rw (on_profile, found, e)
                  (old, ground (arith, lookup-insert a b profile' s.validators), f)
          ]
          | inr (inl (error, e)) ↦ rw (on_profile, found, e) (old, at_a, f)
          | inr (inr e) ↦ rw (on_profile, found, e) (old, at_a, f)
        ]
      ]

  same_validators-StaysBanned :
      (a : Str) (s t : SlashingManager)
      → t.validators ≡ s.validators
      → StaysBanned a s
      → StaysBanned a t
  same_validators-StaysBanned a s t e b = rw e b

  execute_slash-StaysBanned :
      (a : Str) (offense : ViolationType) (offender : Str) (stake now : ℕ) (s : SlashingManager)
      → StaysBanned a s
      → StaysBanned a (execute_slash offense offender stake now s).1
  unfolding execute_slash
  execute_slash-StaysBanned a ViolationType.extended_downtime offender stake now s b =
      rw (execute_slash, discard-snd)
        (on_profile-StaysBanned a offender _ s
          (judge_downtime-KeepsFinal offender s.current_block_height stake now) b)
  execute_slash-StaysBanned a ViolationType.double_signing offender stake now s b =
      rw (execute_slash, discard-snd)
        (on_profile-StaysBanned a offender _ s
          (ban_double_signer-KeepsFinal offender s.current_block_height stake now) b)
  execute_slash-StaysBanned a ViolationType.fraudulent_transaction offender stake now s b =
      rw (execute_slash, discard-snd)
        (on_profile-StaysBanned a offender _ s
          (ban_double_signer-KeepsFinal offender s.current_block_height stake now) b)

  confirm-StaysBanned :
      (a id confirmer : Str) (n now : ℕ) (stake : Option ℕ) (s : SlashingManager)
      → StaysBanned a s
      → StaysBanned a (confirm_slash id confirmer n now stake s).1
  confirm-StaysBanned a id confirmer n now stake s b =
      elim (confirm-cases id confirmer n now stake s) [
        | unknown e ↦ rw e b
        | again proposal found was_executed e ↦ rw e b
        | waiting proposal found pending e ↦ rw e b
        | concluded proposal found pending reached e ↦ rw e (
            same_validators-StaysBanned a (execution confirmer stake now id proposal s).1
              (conclude id (execution confirmer stake now id proposal s)).1
              (conclude-validators id (execution confirmer stake now id proposal s))
              (execute_slash-StaysBanned a proposal.offense_type proposal.offender
                (stake_or_zero (with_confirmation confirmer stake proposal).staked_amount_cil) now
                (put_proposal id (with_confirmation confirmer stake proposal) s) b))
      ]

  step-StaysBanned :
      (a : Str) (op : Op) (s : SlashingManager)
      → forgets a op ≡ false
      → StaysBanned a s
      → StaysBanned a (step op s)
  unfolding step register_validator update_block_height remove_validator
  step-StaysBanned a (registers k) s h b = elim (Option-cases (lookup k s.validators)) [
    | inl missing ↦
        let (profile, at_a, f) = b in
        rw (register_validator, missing)
          (
            profile,
            ground (arith, lookup-insert a k (new_profile k) s.validators, str_eq_iff a k),
            f,
          )
    | inr (profile, found) ↦ rw (register_validator, found) b
  ]
  step-StaysBanned a (signs k height hash now) s h b =
      on_profile-StaysBanned a k _ s (sign-KeepsFinal height hash now) b
  step-StaysBanned a (double_signs k height stake now) s h b =
      on_profile-StaysBanned a k _ s (ban_double_signer-KeepsFinal k height stake now) b
  step-StaysBanned a (participates k height now) s h b =
      on_profile-StaysBanned a k _ s (participate-KeepsFinal now) b
  step-StaysBanned a (observes k) s h b = on_profile-StaysBanned a k _ s observe-KeepsFinal b
  step-StaysBanned a (checks_downtime k height stake now) s h b =
      on_profile-StaysBanned a k _ s (judge_downtime-KeepsFinal k height stake now) b
  step-StaysBanned a (bans k reason) s h b = on_profile-StaysBanned a k _ s ban-KeepsFinal b
  step-StaysBanned a (unstakes k) s h b = on_profile-StaysBanned a k _ s unstake-KeepsFinal b
  step-StaysBanned a (reaches_height height) s h b = b
  step-StaysBanned a (proposes offender offense evidence proposer now) s h b =
      same_validators-StaysBanned a s (propose_slash offender offense evidence proposer now s).1
        (propose-validators offender offense evidence proposer now s) b
  step-StaysBanned a (confirms id confirmer n now stake) s h b =
      confirm-StaysBanned a id confirmer n now stake s b
  step-StaysBanned a (removes k) s h (profile, at_a, f) =
      (profile, ground (arith, lookup-erase_ne a k s.validators, str_eq_iff a k), f)
  step-StaysBanned a clears s h b = absurd (ground arith)

  run-StaysBanned :
      (a : Str) (ops : List Op) (s : SlashingManager)
      → any (forgets a) ops ≡ false
      → StaysBanned a s
      → StaysBanned a (run ops s)
  unfolding run
  run-StaysBanned a [] s h b = b
  run-StaysBanned a (op ∷ ops) s h b =
      run-StaysBanned a ops (step op s) (ground arith) (step-StaysBanned a op s (ground arith) b)

-- As long as its record is not deleted, a banned validator stays banned over any run, and neither
-- the total of its slashes nor their history ever changes again.
pub ban_is_final :
    (a : Str) (profile : ValidatorSafetyProfile) (ops : List Op) (s : SlashingManager)
    → lookup a s.validators ≡ some profile
    → profile.status ≡ ValidatorStatus.banned
    → any (forgets a) ops ≡ false
    → StaysBanned profile.total_slashed_cil profile.slash_history a (run ops s)
ban_is_final a profile ops s found banned kept =
    run-StaysBanned profile.total_slashed_cil profile.slash_history a ops s kept
      (profile, found, (banned, refl, refl))
