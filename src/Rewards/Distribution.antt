-- ===== src/Rewards/Distribution.antt =====
-- What an epoch pays out.
use unauthority_core.Base.{
  ℕ, ◌+◌, ◌*◌, ◌^◌, ◌≤◌, ◌<◌, ◌≡◌, refl, Str, str_eq_iff, true, ◌&&◌, none, some, List, [], ◌∷◌,
  arith, ltb, ◌==◌, u64, u128, min, All, inl, inr, Bool-cases, str_key,
}
use unauthority_core.Base.Map.{lookup, HasDistinctKeys}
use unauthority_core.Rewards.State.{
  ValidatorRewardState, is_eligible, sqrt_stake_weight, ValidatorRewardPool,
}
use unauthority_core.Rewards.{
  Validators, epoch_reward_rate, advance_epoch, eligible, total, reward_of, rewards_for, pay,
  distribute_epoch_rewards,
}
use native.Mathlib.Nat.{div-mul-le_self, le_of_mul-le-mul_right}

reward_share :
    (budget total_weight weight : ℕ)
    → reward_of budget total_weight weight * total_weight ≤ budget * weight
unfolding reward_of
reward_share budget total_weight weight = elim (Bool-cases (ltb (budget * weight) (2 ^ 128))) [
  | inl fits ↦ rw (reward_of, fits) (div-mul-le_self (budget * weight) total_weight)
  | inr large ↦ rw (reward_of, large) (omega arith)
]

rewards_share :
    (budget total_weight : ℕ) (weights : List (Str × ℕ))
    → total (rewards_for budget total_weight weights) * total_weight ≤ budget * total weights
unfolding rewards_for
rewards_share budget total_weight [] = omega arith
rewards_share budget total_weight ((address, weight) ∷ weights) =
    elim (Bool-cases (ltb 0 (reward_of budget total_weight weight))) [
      | inl paid ↦
          rw (rewards_for, paid)
            (grind (
              arith,
              rewards_share budget total_weight weights,
              reward_share budget total_weight weight,
            ))
      | inr nothing ↦
          rw (rewards_for, nothing) (grind (arith, rewards_share budget total_weight weights))
    ]

rewards_within :
    (budget : ℕ) (weights : List (Str × ℕ))
    → 0 < total weights
    → total (rewards_for budget (total weights) weights) ≤ budget
rewards_within budget weights pos =
    le_of_mul-le-mul_right {k = total weights} (rewards_share budget (total weights) weights) pos

-- A positive reward for a validator that is registered and eligible.
abbrev pub IsEarned : ℕ → Validators → Str × ℕ → Type 0
IsEarned epoch m (address, reward) =
    (v : ValidatorRewardState) × (lookup address m ≡ some v)
    × (is_eligible epoch v ≡ true)
    × (0 < reward)

cons-IsEarned :
    (epoch : ℕ) (address : Str) (v : ValidatorRewardState) (m : Validators)
    → lookup address m ≡ none
    → (rewards : List (Str × ℕ)) → All (IsEarned epoch m) rewards
    → All (IsEarned epoch ((address, v) ∷ m)) rewards
unfolding lookup
cons-IsEarned epoch address v m new [] all = tt
cons-IsEarned epoch address v m new ((a, reward) ∷ rewards) ((w, found, ok_now, positive), all) = (
  (w, ground (arith, str_eq_iff a address), ok_now, positive),
  cons-IsEarned epoch address v m new rewards all,
)

rewards-IsEarned :
    (epoch budget total_weight : ℕ) (m : Validators)
    → HasDistinctKeys m
    → All (IsEarned epoch m) (rewards_for budget total_weight (eligible epoch m))
unfolding eligible rewards_for lookup
rewards-IsEarned epoch budget total_weight [] d = tt
rewards-IsEarned epoch budget total_weight ((address, v) ∷ m) (new, d) =
    let rest =
      cons-IsEarned epoch address v m new _ (rewards-IsEarned epoch budget total_weight m d) in
    elim (Bool-cases (is_eligible epoch v && ltb 0 (sqrt_stake_weight v))) [
      | inr out ↦ rw (eligible, out) rest
      | inl included ↦
          elim (Bool-cases (ltb 0 (reward_of budget total_weight (sqrt_stake_weight v)))) [
            | inr nothing ↦ rw (eligible, included, rewards_for, nothing) rest
            | inl paid ↦
                rw (eligible, included, rewards_for, paid)
                  (
                    (v, ground (arith, str_eq_iff address address), ground arith, ground arith),
                    rest,
                  )
          ]
    ]

-- What a distribution does to the pool.
pub record Distributes (s : ValidatorRewardPool) (rewards : List (Str × ℕ))
    (s' : ValidatorRewardPool) : Type 0 where
  pub within_rate : total rewards ≤ epoch_reward_rate s
  pub conserved : s'.remaining_cil + total rewards ≡ s.remaining_cil
  pub booked : s'.total_distributed_cil ≡ u128 (s.total_distributed_cil + total rewards)
  pub next_epoch : s'.current_epoch ≡ u64 (s.current_epoch + 1)
  pub earned : All (IsEarned s.current_epoch s.validators) rewards

advance-Distributes :
    (s : ValidatorRewardPool)
    → s.total_distributed_cil < 2 ^ 128
    → Distributes s [] (advance_epoch s)
unfolding advance_epoch
advance-Distributes s fits = record {
  within_rate = omega arith;
  conserved = omega arith;
  booked = omega arith;
  next_epoch = refl;
  earned = tt;
}

pay-Distributes :
    (s : ValidatorRewardPool) (rewards : List (Str × ℕ))
    → s.remaining_cil < 2 ^ 128
    → total rewards ≤ min (epoch_reward_rate s) s.remaining_cil
    → All (IsEarned s.current_epoch s.validators) rewards
    → Distributes s rewards (advance_epoch (pay rewards s))
unfolding advance_epoch
pay-Distributes s rewards fits within earned = record {
  within_rate = omega arith;
  conserved = omega arith;
  booked = omega arith;
  next_epoch = refl;
  earned = earned;
}

-- If the amounts fit a u128, as does the sum of the weights of the eligible validators, and no
-- validator is registered twice: a distribution pays at most the rate of the epoch; what it pays
-- leaves the pool and is added to the total distributed; the next epoch begins; and every reward
-- is positive and goes to a registered validator that was eligible in the epoch.
pub rewards_within_budget :
    (s : ValidatorRewardPool)
    → s.remaining_cil < 2 ^ 128
    → s.total_distributed_cil < 2 ^ 128
    → total (eligible s.current_epoch s.validators) < 2 ^ 128
    → HasDistinctKeys s.validators
    → Distributes s (distribute_epoch_rewards s).0 (distribute_epoch_rewards s).1
unfolding distribute_epoch_rewards
rewards_within_budget s remaining_fits total_fits weights_fit d =
    let weights : List (Str × ℕ) = eligible s.current_epoch s.validators in
    let budget : ℕ = min (epoch_reward_rate s) s.remaining_cil in
    let exact : u128 (total weights) ≡ total weights = omega arith in
    elim (Bool-cases (epoch_reward_rate s == 0)) [
      | inl no_rate ↦ rw (distribute_epoch_rewards, no_rate) (advance-Distributes s total_fits)
      | inr rate ↦ elim (Bool-cases (s.remaining_cil == 0)) [
        | inl empty ↦ rw (distribute_epoch_rewards, rate, empty) (advance-Distributes s total_fits)
        | inr funded ↦ elim (Bool-cases (total weights == 0)) [
          | inl nobody ↦
              rw (distribute_epoch_rewards, rate, funded, exact, nobody)
                (advance-Distributes s total_fits)
          | inr somebody ↦
              rw (distribute_epoch_rewards, rate, funded, exact, somebody)
                (pay-Distributes s (rewards_for budget (total weights) weights) remaining_fits
                  (rewards_within budget weights (ground arith))
                  (rewards-IsEarned s.current_epoch budget (total weights) s.validators d))
        ]
      ]
    ]
