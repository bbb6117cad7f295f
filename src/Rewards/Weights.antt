-- ===== src/Rewards/Weights.antt =====
-- The weights of the validators never overflow: their roots are short.
use unauthority_core.Base.{
  ℕ, ◌+◌, ◌*◌, ◌/◌, ◌^◌, ◌≤◌, ◌<◌, ◌≡◌, refl, Str, ◌&&◌, none, some, [], ◌∷◌, arith, ltb, All,
  length, inl, inr, Bool-cases, str_key,
}
use unauthority_core.Base.Map.{
  lookup, insert, replace, insert_new, erase, insert_old, insert_absent, HasDistinctKeys,
  insert-HasDistinctKeys, erase-HasDistinctKeys,
}
use unauthority_core.Ledger.Block.{cil_per_los}
use unauthority_core.Rewards.State.{ValidatorRewardState, is_eligible, isqrt, sqrt_stake_weight}
use unauthority_core.Rewards.{Validators, eligible, total, map_values}
use unauthority_core.Rewards.Isqrt.{IsRoot, isqrt-IsRoot}
use native.Mathlib.Nat.{mul-le-mul}

-- An entry whose stake fits a u128.
abbrev pub Fits : Str × ValidatorRewardState → Type 0
Fits (address, v) = v.stake_cil < 2 ^ 128

-- No validator twice, every stake fits, and there are at most `n`.
pub record AreValidators (n : ℕ) (m : Validators) : Type 0 where
  pub distinct : HasDistinctKeys m
  pub fits : All Fits m
  pub few : length m ≤ n

root_below : (n r b : ℕ) → r * r ≤ n → n < b * b → r < b
root_below n r b le lt = elim (Bool-cases (ltb r b)) [
  | inl less ↦ ground arith
  | inr more ↦ let b_le : b ≤ r = ground arith in absurd (omega (arith, mul-le-mul b_le b_le))
]

weight_below : (v : ValidatorRewardState) → v.stake_cil < 2 ^ 128 → sqrt_stake_weight v < 2 ^ 46
unfolding sqrt_stake_weight
weight_below v fits =
    let small : v.stake_cil / cil_per_los < 2 ^ 46 * 2 ^ 46 = omega arith in
    let root : IsRoot (v.stake_cil / cil_per_los) (isqrt (v.stake_cil / cil_per_los)) =
      isqrt-IsRoot (v.stake_cil / cil_per_los) (omega arith) in
    root_below (v.stake_cil / cil_per_los) (isqrt (v.stake_cil / cil_per_los)) (2 ^ 46) root.0 small

pub total_weight_below :
    (epoch : ℕ) (m : Validators) → All Fits m → total (eligible epoch m) ≤ length m * 2 ^ 46
unfolding eligible
total_weight_below epoch [] fits = omega arith
total_weight_below epoch ((address, v) ∷ m) (fit, fits) =
    elim (Bool-cases (is_eligible epoch v && ltb 0 (sqrt_stake_weight v))) [
      | inl included ↦
          rw (eligible, included)
            (omega (arith, weight_below v fit, total_weight_below epoch m fits))
      | inr out ↦ rw (eligible, out) (omega (arith, total_weight_below epoch m fits))
    ]

module _ (address : Str) (v : ValidatorRewardState) (fit : v.stake_cil < 2 ^ 128) where
  replace-Fits : (m : Validators) → All Fits m → All Fits (replace address v m)
  unfolding replace
  replace-Fits [] fits = tt
  replace-Fits ((j, w) ∷ m) fits = elim (Bool-cases (str_key.beq address j)) [
    | inl same ↦ rw (replace, same) (fit, fits.1)
    | inr other ↦ rw (replace, other) (fits.0, replace-Fits m fits.1)
  ]

  length-replace : (m : Validators) → length (replace address v m) ≡ length m
  unfolding replace
  length-replace [] = refl
  length-replace ((j, w) ∷ m) = ground (arith, length-replace m)

  insert_new-Fits : (m : Validators) → All Fits m → All Fits (insert_new address v m)
  unfolding insert_new
  insert_new-Fits [] fits = (fit, tt)
  insert_new-Fits ((j, w) ∷ m) fits = elim (Bool-cases (str_key.key_ltb address j)) [
    | inl before ↦ rw (insert_new, before) (fit, fits)
    | inr after ↦ rw (insert_new, after) (fits.0, insert_new-Fits m fits.1)
  ]

  length-insert_new : (m : Validators) → length (insert_new address v m) ≡ length m + 1
  unfolding insert_new
  length-insert_new [] = refl
  length-insert_new ((j, w) ∷ m) = ground (arith, length-insert_new m)

  pub insert_new-AreValidators :
      (n : ℕ) (m : Validators)
      → lookup address m ≡ none
      → AreValidators n m
      → AreValidators (n + 1) (insert address v m)
  insert_new-AreValidators n m new a = record {
    distinct = insert-HasDistinctKeys address v m a.distinct;
    fits = rw (insert_absent address v m new) (insert_new-Fits m a.fits);
    few = rw (insert_absent address v m new) (omega (arith, length-insert_new m, a.few));
  }

  pub replace-AreValidators :
      (n : ℕ) (w : ValidatorRewardState) (m : Validators)
      → lookup address m ≡ some w
      → AreValidators n m
      → AreValidators n (insert address v m)
  replace-AreValidators n w m old a = record {
    distinct = insert-HasDistinctKeys address v m a.distinct;
    fits = rw (insert_old address v w m old) (replace-Fits m a.fits);
    few = rw (insert_old address v w m old) (omega (arith, length-replace m, a.few));
  }

pub found-Fits :
    (address : Str) (v : ValidatorRewardState) (m : Validators)
    → All Fits m
    → lookup address m ≡ some v
    → v.stake_cil < 2 ^ 128
unfolding lookup
found-Fits address v [] fits e = absurd (ground arith)
found-Fits address v ((j, w) ∷ m) fits e = elim (Bool-cases (str_key.beq address j)) [
  | inl same ↦ let q : v ≡ w = ground arith in rw q fits.0
  | inr other ↦ found-Fits address v m fits.1 (ground arith)
]

erase-Fits : (address : Str) (m : Validators) → All Fits m → All Fits (erase address m)
unfolding erase
erase-Fits address [] fits = tt
erase-Fits address ((j, w) ∷ m) fits = elim (Bool-cases (str_key.beq address j)) [
  | inl same ↦ rw (erase, same) fits.1
  | inr other ↦ rw (erase, other) (fits.0, erase-Fits address m fits.1)
]

length-erase : (address : Str) (m : Validators) → length (erase address m) ≤ length m
unfolding erase
length-erase address [] = omega arith
length-erase address ((j, w) ∷ m) = ground (arith, length-erase address m)

pub erase-AreValidators :
    (n : ℕ) (address : Str) (m : Validators) → AreValidators n m → AreValidators n (erase address m)
erase-AreValidators n address m a = record {
  distinct = erase-HasDistinctKeys address m a.distinct;
  fits = erase-Fits address m a.fits;
  few = omega (arith, length-erase address m, a.few);
}

module _ (f : ValidatorRewardState → ValidatorRewardState)
    (keeps : (v : ValidatorRewardState) → (f v).stake_cil ≡ v.stake_cil) where
  lookup-map_values :
      (k : Str) (m : Validators) → lookup k m ≡ none → lookup k (map_values f m) ≡ none
  unfolding lookup
  lookup-map_values k [] e = refl
  lookup-map_values k ((j, w) ∷ m) e = ground (arith, lookup-map_values k m)

  map_values-HasDistinctKeys :
      (m : Validators) → HasDistinctKeys m → HasDistinctKeys (map_values f m)
  map_values-HasDistinctKeys [] d = tt
  map_values-HasDistinctKeys ((j, w) ∷ m) d =
      (lookup-map_values j m d.0, map_values-HasDistinctKeys m d.1)

  map_values-Fits : (m : Validators) → All Fits m → All Fits (map_values f m)
  map_values-Fits [] fits = tt
  map_values-Fits ((j, w) ∷ m) fits = (rw (keeps w) fits.0, map_values-Fits m fits.1)

  length-map_values : (m : Validators) → length (map_values f m) ≡ length m
  length-map_values [] = refl
  length-map_values ((j, w) ∷ m) = omega (arith, length-map_values m)

  pub map_values-AreValidators :
      (n : ℕ) (m : Validators) → AreValidators n m → AreValidators n (map_values f m)
  map_values-AreValidators n m a = record {
    distinct = map_values-HasDistinctKeys m a.distinct;
    fits = map_values-Fits m a.fits;
    few = rw length-map_values a.few;
  }
