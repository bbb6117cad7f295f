-- ===== src/Consensus/Slashing/Profiles.antt =====
-- What every profile satisfies in any state that the slashing manager reaches.
use unauthority_core.Base.{
  ℕ, ◌+◌, ◌≡◌, refl, Str, not, Option, some, List, [], ◌∷◌, ◌++◌, arith, leb, ◌&&◌, u64, any,
  str_key, inl, inr, Bool-cases, Option-cases,
}
use unauthority_core.Base.Map.{
  lookup, HasDistinctKeys, insert-HasDistinctKeys, erase-HasDistinctKeys,
}
use unauthority_core.Base.Map.Every.{Every, insert-Every, erase-Every}
use unauthority_core.Base.Outcome.{Outcome-cases}
use unauthority_core.Consensus.Slashing.State.{
  ViolationType, ValidatorStatus, SignatureRecord, ValidatorSafetyProfile, new_profile,
  SlashingManager, new_manager, downtime_window_blocks, meets_uptime_requirement,
}
use unauthority_core.Consensus.Slashing.{
  Change, on_profile, register_validator, conflicts, keep_recent, sign, punish, ban_double_signer,
  participate, observe, judge_downtime, double_signing_event, downtime_event, ban, unstake,
  update_block_height, remove_validator, clear, execute_slash, confirm_slash,
}
use unauthority_core.Consensus.Slashing.Sound.{
  IsSound, KeepsSound, snoc-SignsOnce, keep_recent-SignsOnce, length-keep_recent, punish-IsSound,
  with_signatures-IsSound, with_counters-IsSound,
}
use unauthority_core.Consensus.Slashing.Confirm.{
  unknown, again, waiting, concluded, confirm-cases, propose-validators, discard-snd,
  conclude-validators,
}
use unauthority_core.Consensus.Slashing.Runs.{
  Op, registers, signs, double_signs, participates, observes, checks_downtime, bans, unstakes,
  reaches_height, proposes, confirms, removes, clears, step, run,
}

module _ (a : Str) where
  sign-KeepsSound : (height : ℕ) (hash : Str) (now : ℕ) → KeepsSound a (sign height hash now)
  unfolding sign
  sign-KeepsSound height hash now profile x profile' events e v =
      elim (Bool-cases (any (conflicts height hash) profile.recent_signatures)) [
        | inl conflicting ↦ absurd (ground arith)
        | inr fresh ↦
            let sig : SignatureRecord = record {
              block_height = height;
              signature_hash = hash;
              timestamp = now;
            } in
            let q : profile' ≡ record profile {
              recent_signatures = keep_recent (profile.recent_signatures ++ (sig ∷ []));
            } =
              ground arith in
            rw q (
              with_signatures-IsSound a profile v _
                (keep_recent-SignsOnce _
                  (snoc-SignsOnce profile.recent_signatures sig fresh v.signs_once))
                (length-keep_recent profile.recent_signatures sig v.few_signatures))
      ]

  participate-KeepsSound : (now : ℕ) → KeepsSound a (participate now)
  unfolding participate
  participate-KeepsSound now profile x profile' events e v =
      let q : profile' ≡ record profile {
        blocks_participated = u64 (profile.blocks_participated + 1);
        total_blocks_observed = u64 (profile.total_blocks_observed + 1);
        last_participation_timestamp = now;
      } =
        ground arith in
      rw q (with_counters-IsSound a profile v profile.status _ _ _)

  observe-KeepsSound : KeepsSound a observe
  unfolding observe
  observe-KeepsSound profile x profile' events e v =
      let q : profile'
          ≡ record profile { total_blocks_observed = u64 (profile.total_blocks_observed + 1) } =
        ground arith in
      rw q (with_counters-IsSound a profile v profile.status _ _ _)

  ban-KeepsSound : KeepsSound a ban
  unfolding ban
  ban-KeepsSound profile x profile' events e v =
      let q : profile' ≡ record profile { status = ValidatorStatus.banned } = ground arith in
      rw q (with_counters-IsSound a profile v _ _ _ _)

  unstake-KeepsSound : KeepsSound a unstake
  unfolding unstake
  unstake-KeepsSound profile x profile' events e v =
      let q : profile' ≡ record profile { status = ValidatorStatus.unstaking } = ground arith in
      rw q (with_counters-IsSound a profile v _ _ _ _)

  ban_double_signer-KeepsSound :
      (height stake now : ℕ) → KeepsSound a (ban_double_signer a height stake now)
  unfolding ban_double_signer
  ban_double_signer-KeepsSound height stake now profile x profile' events e v =
      let q : profile'
          ≡ punish ValidatorStatus.banned (double_signing_event a height stake now) profile =
        ground arith in
      rw q (punish-IsSound a ValidatorStatus.banned _ profile refl v)

  judge_downtime-KeepsSound :
      (height stake now : ℕ) → KeepsSound a (judge_downtime a height stake now)
  unfolding judge_downtime
  judge_downtime-KeepsSound height stake now profile x profile' events e v =
      elim (Bool-cases (
        leb downtime_window_blocks profile.total_blocks_observed
        && not (meets_uptime_requirement profile))) [
          | inl down ↦
              let q : profile'
                  ≡ record (punish ValidatorStatus.slashed (downtime_event a height stake now)
                      profile) { blocks_participated = 0; total_blocks_observed = 0 } =
                ground arith in
              rw q (
                with_counters-IsSound a _
                  (punish-IsSound a ValidatorStatus.slashed _ profile refl v) _ _ _ _)
          | inr up ↦ let q : profile' ≡ profile = ground arith in rw q v
        ]

-- What every state of the manager satisfies.
pub record IsValid (s : SlashingManager) : Type 0 where
  pub distinct : HasDistinctKeys s.validators
  pub sound : Every IsSound s.validators

new_manager-IsValid : IsValid new_manager
unfolding new_manager lookup
new_manager-IsValid = record { distinct = tt; sound = λ k v e. absurd (ground arith) }

on_profile-IsValid :
    {A : Type 0} (a : Str) (change : Change A) (s : SlashingManager)
    → KeepsSound a change
    → IsValid s
    → IsValid (on_profile a change s).1
unfolding on_profile
on_profile-IsValid a change s keeps v = elim (Option-cases (lookup a s.validators)) [
  | inl missing ↦ rw (on_profile, missing) v
  | inr (profile, found) ↦ elim (Outcome-cases (change profile)) [
    | inl ((x, profile', events), e) ↦
        rw (on_profile, found, e)
          (record {
            distinct = insert-HasDistinctKeys a profile' s.validators v.distinct;
            sound =
                insert-Every IsSound a profile' s.validators
                  (keeps profile x profile' events e (v.sound a profile found)) v.sound;
          })
    | inr (inl (error, e)) ↦ rw (on_profile, found, e) v
    | inr (inr e) ↦ rw (on_profile, found, e) v
  ]
]

-- An operation on the proposals alone.
same_validators-IsValid :
    (s t : SlashingManager) → t.validators ≡ s.validators → IsValid s → IsValid t
same_validators-IsValid s t e v = record { distinct = rw e v.distinct; sound = rw e v.sound }

register-IsValid : (a : Str) (s : SlashingManager) → IsValid s → IsValid (register_validator a s)
unfolding register_validator new_profile
register-IsValid a s v = elim (Option-cases (lookup a s.validators)) [
  | inl missing ↦
      rw (register_validator, missing)
        (record {
          distinct = insert-HasDistinctKeys a (new_profile a) s.validators v.distinct;
          sound =
              insert-Every IsSound a (new_profile a) s.validators
                (record {
                  named = refl;
                  total = refl;
                  counted = refl;
                  own_events = tt;
                  signs_once = tt;
                  few_signatures = omega arith;
                })
                v.sound;
        })
  | inr (profile, found) ↦ rw (register_validator, found) v
]

execute_slash-IsValid :
    (offense : ViolationType) (offender : Str) (stake now : ℕ) (s : SlashingManager)
    → IsValid s
    → IsValid (execute_slash offense offender stake now s).1
unfolding execute_slash
execute_slash-IsValid ViolationType.extended_downtime offender stake now s v =
    rw (execute_slash, discard-snd)
      (on_profile-IsValid offender _ s
        (judge_downtime-KeepsSound offender s.current_block_height stake now) v)
execute_slash-IsValid ViolationType.double_signing offender stake now s v =
    rw (execute_slash, discard-snd)
      (on_profile-IsValid offender _ s
        (ban_double_signer-KeepsSound offender s.current_block_height stake now) v)
execute_slash-IsValid ViolationType.fraudulent_transaction offender stake now s v =
    rw (execute_slash, discard-snd)
      (on_profile-IsValid offender _ s
        (ban_double_signer-KeepsSound offender s.current_block_height stake now) v)

confirm-IsValid :
    (id confirmer : Str) (total now : ℕ) (stake : Option ℕ) (s : SlashingManager)
    → IsValid s
    → IsValid (confirm_slash id confirmer total now stake s).1
unfolding confirm_slash
confirm-IsValid id confirmer total now stake s v =
    elim (confirm-cases id confirmer total now stake s) [
      | unknown e ↦ rw e v
      | again proposal found was_executed e ↦ rw e (same_validators-IsValid s _ refl v)
      | waiting proposal found pending e ↦ rw e (same_validators-IsValid s _ refl v)
      | concluded proposal found pending reached e ↦ rw e (
          same_validators-IsValid _ _ (conclude-validators id _) (
            execute_slash-IsValid proposal.offense_type proposal.offender _ now _
              (same_validators-IsValid s _ refl v)))
    ]

step-IsValid : (op : Op) (s : SlashingManager) → IsValid s → IsValid (step op s)
unfolding step
step-IsValid (registers a) s v = register-IsValid a s v
step-IsValid (signs a height hash now) s v =
    on_profile-IsValid a _ s (sign-KeepsSound a height hash now) v
step-IsValid (double_signs a height stake now) s v =
    on_profile-IsValid a _ s (ban_double_signer-KeepsSound a height stake now) v
step-IsValid (participates a height now) s v =
    on_profile-IsValid a _ s (participate-KeepsSound a now) v
step-IsValid (observes a) s v = on_profile-IsValid a _ s (observe-KeepsSound a) v
step-IsValid (checks_downtime a height stake now) s v =
    on_profile-IsValid a _ s (judge_downtime-KeepsSound a height stake now) v
step-IsValid (bans a reason) s v = on_profile-IsValid a _ s (ban-KeepsSound a) v
step-IsValid (unstakes a) s v = on_profile-IsValid a _ s (unstake-KeepsSound a) v
step-IsValid (reaches_height height) s v =
    unfold update_block_height in same_validators-IsValid s _ refl v
step-IsValid (proposes offender offense evidence proposer now) s v =
    same_validators-IsValid s _ (propose-validators offender offense evidence proposer now s) v
step-IsValid (confirms id confirmer total now stake) s v =
    confirm-IsValid id confirmer total now stake s v
step-IsValid (removes a) s v =
    unfold remove_validator in
    record {
      distinct = erase-HasDistinctKeys a s.validators v.distinct;
      sound = erase-Every IsSound a s.validators v.distinct v.sound;
    }
step-IsValid clears s v = unfold clear in new_manager-IsValid

run-IsValid : (ops : List Op) (s : SlashingManager) → IsValid s → IsValid (run ops s)
unfolding run
run-IsValid [] s v = v
run-IsValid (op ∷ ops) s v = run-IsValid ops (step op s) (step-IsValid op s v)

-- In every state that the manager reaches, the profile of a validator bears its address; the total
-- slashed is the sum of the penalties in its history, modulo 2^128, and the number of violations
-- is the length of the history, modulo 2^32; all events of the history are its own; it keeps at
-- most 1,000 signatures, and no two of them are for different blocks of one height.
pub profiles-IsSound :
    (ops : List Op) (a : Str) (profile : ValidatorSafetyProfile)
    → lookup a (run ops new_manager).validators ≡ some profile
    → IsSound a profile
profiles-IsSound ops a profile e =
    (run-IsValid ops new_manager new_manager-IsValid).sound a profile e
