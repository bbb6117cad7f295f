-- ===== src/Consensus/Slashing/Downtime.antt =====
-- When downtime is slashed, and by how much.
use unauthority_core.Base.{
  ℕ, ◌+◌, ◌*◌, ◌^◌, ◌<◌, ◌≤◌, ◌≡◌, ◌≢◌, ◌↔◌, refl, Str, false, Option, none, some, List, [], ◌∷◌,
  arith, leb, ◌&&◌, not, ◌⊎◌, inl, inr, Bool-cases, leb→le,
}
use unauthority_core.Base.Outcome.{Outcome, ok}
use unauthority_core.Consensus.Slashing.State.{
  SlashError, SlashEvent, ValidatorStatus, ValidatorSafetyProfile, get_uptime_bps,
  meets_uptime_requirement, downtime_window_blocks,
}
use unauthority_core.Consensus.Slashing.{punish, downtime_event, downtime_slash, judge_downtime}
use native.Mathlib.Nat.{div-lt_iff_lt-mul, div-le_of_le-mul}

-- The profile fails its check: a penalty of `amount` is taken, and a new window begins.
abbrev pub SlashesDowntime :
    ℕ → Outcome SlashError (Option ℕ × ValidatorSafetyProfile × List SlashEvent) → Type 0
SlashesDowntime amount r =
    (profile' : ValidatorSafetyProfile) × (events : List SlashEvent) × (r
      ≡ ok (some amount, profile', events))
    × (profile'.status ≡ ValidatorStatus.slashed)
    × (profile'.total_blocks_observed ≡ 0)
    × (profile'.blocks_participated ≡ 0)

module _ (profile : ValidatorSafetyProfile)
    (possible : profile.blocks_participated ≤ profile.total_blocks_observed)
    (seen : downtime_window_blocks ≤ profile.total_blocks_observed) where
  uptime_fails :
      (meets_uptime_requirement profile ≡ false)
      ↔ (profile.blocks_participated * 10_000 < 9_500 * profile.total_blocks_observed)
  unfolding meets_uptime_requirement get_uptime_bps
  uptime_fails = ground (
    arith,
    div-lt_iff_lt-mul {k = profile.total_blocks_observed} {x = profile.blocks_participated * 10_000}
        {y = 9_500} (omega arith),
    div-le_of_le-mul profile.total_blocks_observed {m = profile.blocks_participated * 10_000}
        {n = 10_000} (omega arith),
  )

downtime_slash-bounds :
    (stake : ℕ)
    → stake * 100 < 2 ^ 128
    → (stake ≤ 100 * downtime_slash stake) × (100 * downtime_slash stake < stake + 100)
unfolding downtime_slash
downtime_slash-bounds stake fits = ground arith

punished :
    (a : Str) (height stake now : ℕ) (profile : ValidatorSafetyProfile)
    → profile.status ≢ ValidatorStatus.banned
    → downtime_window_blocks ≤ profile.total_blocks_observed
    → meets_uptime_requirement profile ≡ false
    → SlashesDowntime (downtime_slash stake) (judge_downtime a height stake now profile)
unfolding judge_downtime punish
punished a height stake now profile free seen down = (
  record (punish ValidatorStatus.slashed (downtime_event a height stake now) profile) {
    blocks_participated = 0;
    total_blocks_observed = 0;
  },
  downtime_event a height stake now ∷ [],
  ground arith,
  refl,
  refl,
  refl,
)

spared :
    (a : Str) (height stake now : ℕ) (profile : ValidatorSafetyProfile)
    → profile.status ≢ ValidatorStatus.banned
    → (leb downtime_window_blocks profile.total_blocks_observed
        && not (meets_uptime_requirement profile))
      ≡ false
    → judge_downtime a height stake now profile ≡ ok (none, profile, [])
unfolding judge_downtime
spared a height stake now profile free up = ground arith

-- A validator that is not banned, whose participation does not exceed its observation and whose
-- stake times 100 fits a u128, is slashed for downtime exactly if it was observed for at least
-- 50,000 blocks and took part in less than 95% of them; the penalty is one percent of the stake,
-- rounded up, and a new window begins. Otherwise its profile does not change.
pub downtime_judged :
    (a : Str) (height stake now : ℕ) (profile : ValidatorSafetyProfile)
    → profile.status ≢ ValidatorStatus.banned
    → profile.blocks_participated ≤ profile.total_blocks_observed
    → stake * 100 < 2 ^ 128
    → ((50_000 ≤ profile.total_blocks_observed)
        × (profile.blocks_participated * 100 < 95 * profile.total_blocks_observed)
        × (stake ≤ 100 * downtime_slash stake)
        × (100 * downtime_slash stake < stake + 100)
        × SlashesDowntime (downtime_slash stake) (judge_downtime a height stake now profile))
      ⊎ (((profile.total_blocks_observed < 50_000)
            ⊎ (95 * profile.total_blocks_observed ≤ profile.blocks_participated * 100))
          × (judge_downtime a height stake now profile ≡ ok (none, profile, [])))
downtime_judged a height stake now profile free possible fits =
    elim (Bool-cases (leb downtime_window_blocks profile.total_blocks_observed)) [
      | inr few ↦ inr (inl (ground arith), spared a height stake now profile free (ground arith))
      | inl enough ↦
          let seen : downtime_window_blocks ≤ profile.total_blocks_observed = leb→le _ _ enough in
          let fails = uptime_fails profile possible seen in
          elim (Bool-cases (meets_uptime_requirement profile)) [
            | inl up ↦
                inr (
                  inr (ground (arith, fails)),
                  spared a height stake now profile free (ground arith),
                )
            | inr down ↦
                let below = fails.0 down in
                let (at_least, at_most) = downtime_slash-bounds stake fits in
                inl (
                  seen,
                  omega arith,
                  at_least,
                  at_most,
                  punished a height stake now profile free seen down,
                )
          ]
    ]
