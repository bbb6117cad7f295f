-- ===== src/Rewards/Fund.antt =====
-- The reward pool neither loses nor makes value.
use unauthority_core.Base.{
  ℕ, suc, ◌/◌, ◌+◌, ◌-◌, ◌*◌, ◌^◌, ◌<◌, ◌≡◌, refl, Str, List, [], ◌∷◌, arith, All, length, u128,
  inl, inr, Bool-cases, Option-cases, str_key, ◌==◌, leb,
}
use unauthority_core.Base.Map.{lookup, contains}
use unauthority_core.Crypto.{Platform}
use unauthority_core.Rewards.State.{
  ValidatorRewardState, new_state, ValidatorRewardPool, with_balance, new_pool,
  validator_reward_pool_cil,
}
use unauthority_core.Rewards.{
  Validators, map_values, modify_validator, register_validator, beat, record_heartbeat,
  record_heartbeat_once, expect, full_heartbeats, set_expected_heartbeats, catch_up_epochs,
  reset_heartbeats, close_epoch, advance_epoch, eligible, total, add_reward, credit,
  distribute_epoch_rewards, unregister_validator, update_stake, epoch_reward_rate,
}
use unauthority_core.Rewards.Distribution.{Distributes, rewards_within_budget}
use unauthority_core.Rewards.Runs.{
  Op, registers, beats, beats_once, expects, catches_up, advances, distributes, unregisters,
  restakes, step, run, FitsOp,
}
use unauthority_core.Rewards.Weights.{
  AreValidators, total_weight_below, insert_new-AreValidators, replace-AreValidators, found-Fits,
  erase-AreValidators, map_values-AreValidators,
}

-- Nothing of the fund is lost, and there are at most `n` validators.
pub record IsValid (fund n : ℕ) (s : ValidatorRewardPool) : Type 0 where
  pub conserved : s.remaining_cil + s.total_distributed_cil ≡ fund
  pub known : AreValidators n s.validators

plus_zero : (n : ℕ) → n + 0 ≡ n
plus_zero n = omega arith

plus_suc : (n k : ℕ) → n + suc k ≡ (n + 1) + k
plus_suc n k = omega arith

modify-AreValidators :
    (f : ValidatorRewardState → ValidatorRewardState) (a : Str) (n : ℕ) (m : Validators)
    → ((v : ValidatorRewardState) → v.stake_cil < 2 ^ 128 → (f v).stake_cil < 2 ^ 128)
    → AreValidators n m
    → AreValidators n (modify_validator f a m)
unfolding modify_validator
modify-AreValidators f a n m keeps h = elim (Option-cases (lookup a m)) [
  | inl missing ↦ rw (modify_validator, missing) h
  | inr (v, found) ↦
      rw (modify_validator, found)
        (replace-AreValidators a (f v) (keeps v (found-Fits a v m h.fits found)) n v m found h)
]

credit-AreValidators :
    (rewards : List (Str × ℕ)) (n : ℕ) (m : Validators)
    → AreValidators n m
    → AreValidators n (credit rewards m)
unfolding credit
credit-AreValidators [] n m h = h
credit-AreValidators ((a, reward) ∷ rewards) n m h =
    credit-AreValidators rewards n (modify_validator (add_reward reward) a m)
      (modify-AreValidators (add_reward reward) a n m (λ v fit. fit) h)

more-AreValidators : (n : ℕ) (m : Validators) → AreValidators n m → AreValidators (n + 1) m
more-AreValidators n m h = record {
  distinct = h.distinct;
  fits = h.fits;
  few = omega (arith, h.few);
}

expect-stake : (full : ℕ) (v : ValidatorRewardState) → (expect full v).stake_cil ≡ v.stake_cil
expect-stake full v = ground arith

distribute-validators :
    (s : ValidatorRewardPool) (n : ℕ)
    → AreValidators n s.validators
    → AreValidators n (distribute_epoch_rewards s).1.validators
unfolding distribute_epoch_rewards advance_epoch
distribute-validators s n h =
    let weights : List (Str × ℕ) = eligible s.current_epoch s.validators in
    let closed : AreValidators n (map_values close_epoch s.validators) =
      map_values-AreValidators close_epoch (λ v. refl) n s.validators h in
    elim (Bool-cases (epoch_reward_rate s == 0)) [
      | inl no_rate ↦ rw (distribute_epoch_rewards, no_rate) closed
      | inr rate ↦ elim (Bool-cases (s.remaining_cil == 0)) [
        | inl empty ↦ rw (distribute_epoch_rewards, rate, empty) closed
        | inr funded ↦ elim (Bool-cases (u128 (total weights) == 0)) [
          | inl nobody ↦ rw (distribute_epoch_rewards, rate, funded, nobody) closed
          | inr somebody ↦
              rw (distribute_epoch_rewards, rate, funded, somebody)
                (map_values-AreValidators close_epoch (λ v. refl) n _
                  (credit-AreValidators _ n s.validators h))
        ]
      ]
    ]

module _ (fund : ℕ) (fund_fits : fund < 2 ^ 128) where
  distribute-IsValid :
      (n : ℕ) (s : ValidatorRewardPool)
      → n < 2 ^ 64
      → IsValid fund n s
      → IsValid fund n (distribute_epoch_rewards s).1
  distribute-IsValid n s small v =
      let few : length s.validators * 2 ^ 46 < 2 ^ 128 = omega (arith, v.known.few) in
      let d : Distributes s (distribute_epoch_rewards s).0 (distribute_epoch_rewards s).1 =
        rewards_within_budget s (omega (arith, v.conserved)) (omega (arith, v.conserved))
          (omega (arith, few, total_weight_below s.current_epoch s.validators v.known.fits))
          v.known.distinct in
      record {
        conserved = omega (arith, v.conserved, d.conserved, d.booked);
        known = distribute-validators s n v.known;
      }

  catch_up-IsValid :
      (n now : ℕ) (s : ValidatorRewardPool)
      → IsValid fund n s
      → IsValid fund n (catch_up_epochs now s).1
  unfolding catch_up_epochs
  catch_up-IsValid n now s v = elim (Bool-cases (s.epoch_duration_secs == 0)) [
    | inl stopped ↦ rw (catch_up_epochs, stopped) v
    | inr running ↦
        elim (Bool-cases (leb ((now - s.epoch_start_timestamp) / s.epoch_duration_secs) 1)) [
          | inl near ↦ rw (catch_up_epochs, running, near) v
          | inr far ↦
              rw (catch_up_epochs, running, far)
                (record {
                  conserved = v.conserved;
                  known =
                      map_values-AreValidators reset_heartbeats (λ w. refl) n s.validators v.known;
                })
        ]
  ]

  beat-IsValid :
      (n : ℕ) (a : Str) (s : ValidatorRewardPool)
      → IsValid fund n s
      → IsValid fund n (record_heartbeat a s)
  unfolding record_heartbeat
  beat-IsValid n a s v = record {
    conserved = v.conserved;
    known = modify-AreValidators beat a n s.validators (λ w fit. fit) v.known;
  }

  weaken-IsValid : (n : ℕ) (s : ValidatorRewardPool) → IsValid fund n s → IsValid fund (n + 1) s
  weaken-IsValid n s v = record {
    conserved = v.conserved;
    known = more-AreValidators n s.validators v.known;
  }

  step-IsValid :
      (op : Op) (n : ℕ) (s : ValidatorRewardPool)
      → FitsOp op
      → n < 2 ^ 64
      → IsValid fund n s
      → IsValid fund (n + 1) (step op s)
  unfolding step register_validator record_heartbeat_once set_expected_heartbeats advance_epoch
      unregister_validator update_stake new_state
  step-IsValid (registers a g stake) n s fit small v = elim (Option-cases (lookup a s.validators)) [
    | inl missing ↦
        rw (register_validator, missing)
          (record {
            conserved = v.conserved;
            known =
                insert_new-AreValidators a (new_state s.current_epoch g stake) fit n s.validators
                  missing v.known;
          })
    | inr (w, found) ↦
        rw (register_validator, found)
          (record {
            conserved = v.conserved;
            known = more-AreValidators n _ (
                replace-AreValidators a (record w { stake_cil = stake; is_genesis = g }) fit n w
                  s.validators found v.known);
          })
  ]
  step-IsValid (beats a) n s fit small v = weaken-IsValid n _ (beat-IsValid n a s v)
  step-IsValid (beats_once a seen) n s fit small v = elim (Bool-cases (contains a seen)) [
    | inl again ↦ rw (step, record_heartbeat_once, again) (weaken-IsValid n s v)
    | inr first ↦ elim (Bool-cases (contains a s.validators)) [
      | inl known ↦
          rw (step, record_heartbeat_once, first, known) (weaken-IsValid n _ (beat-IsValid n a s v))
      | inr unknown ↦ rw (step, record_heartbeat_once, first, unknown) (weaken-IsValid n s v)
    ]
  ]
  step-IsValid (expects interval) n s fit small v = weaken-IsValid n _ (record {
    conserved = v.conserved;
    known =
        map_values-AreValidators (expect (full_heartbeats interval s))
          (expect-stake (full_heartbeats interval s)) n s.validators v.known;
  })
  step-IsValid (catches_up now) n s fit small v = weaken-IsValid n _ (catch_up-IsValid n now s v)
  step-IsValid advances n s fit small v = weaken-IsValid n _ (record {
    conserved = v.conserved;
    known = map_values-AreValidators close_epoch (λ w. refl) n s.validators v.known;
  })
  step-IsValid distributes n s fit small v = weaken-IsValid n _ (distribute-IsValid n s small v)
  step-IsValid (unregisters a) n s fit small v =
      weaken-IsValid n _
        (record { conserved = v.conserved; known = erase-AreValidators n a s.validators v.known })
  step-IsValid (restakes a stake) n s fit small v = weaken-IsValid n _ (record {
    conserved = v.conserved;
    known =
        modify-AreValidators (λ w. record w { stake_cil = stake }) a n s.validators (λ w h. fit)
          v.known;
  })

  run-IsValid :
      (ops : List Op) (n : ℕ) (s : ValidatorRewardPool)
      → All FitsOp ops
      → n + length ops < 2 ^ 64
      → IsValid fund n s
      → IsValid fund (n + length ops) (run ops s)
  unfolding run
  run-IsValid [] n s fit small v = rw (plus_zero n) v
  run-IsValid (op ∷ ops) n s fit small v = rw (plus_suc n (length ops)) (
      run-IsValid ops (n + 1) (step op s) fit.1 (omega arith)
        (step-IsValid op n s fit.0 (omega arith) v))

-- Over any run of fewer than 2^64 calls from a new pool (without rewards that other nodes report),
-- whose stakes fit a u128, what is left in the pool and what has been distributed are together
-- 500,000 LOS: no call overpays, and nothing is lost to rounding.
pub fund_is_conserved :
    (p : Platform) (genesis_timestamp : ℕ) (ops : List Op)
    → All FitsOp ops
    → length ops < 2 ^ 64
    → (run ops (new_pool p genesis_timestamp)).remaining_cil
        + (run ops (new_pool p genesis_timestamp)).total_distributed_cil
      ≡ validator_reward_pool_cil
unfolding new_pool with_balance
fund_is_conserved p genesis_timestamp ops fit small =
    (run-IsValid validator_reward_pool_cil (omega arith) ops 0 (new_pool p genesis_timestamp) fit
      (omega arith)
      (record {
        conserved = refl;
        known = record { distinct = tt; fits = tt; few = omega arith };
      })).conserved
