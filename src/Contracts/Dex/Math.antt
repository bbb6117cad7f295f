-- ===== src/Contracts/Dex/Math.antt =====
-- crates/los-contracts/src/dex_amm.rs, the arithmetic: u128, which wraps on overflow in the release
-- build.
use unauthority_core.Base.{
  ℕ, ◌+◌, ◌-◌, ◌*◌, ◌/◌, ◌^◌, ◌≤◌, ◌<◌, ◌≡◌, ◌≢◌, true, false, ◌||◌, ◌&&◌, Option, none, some, [],
  ◌∷◌, Str, arith, ◌==◌, leb, ltb, if◌then◌else◌, Bool-cases, inl, inr, checked_mul, checked_add,
  saturating_add, u128, u128_mod, u64_mod,
}
use native.Mathlib.Nat.{mul-le-mul, le-div_iff_mul-le}

abbrev pub default_fee_bps : ℕ
default_fee_bps = 30

abbrev pub bps_denominator : ℕ
bps_denominator = 10_000

abbrev pub minimum_liquidity : ℕ
minimum_liquidity = 1_000

abbrev pub max_fee_bps : ℕ
max_fee_bps = 1_000

abbrev pub precision : ℕ
precision = 1_000_000_000_000

-- `a - b`
abbrev pub wrapping_sub : ℕ → ℕ → ℕ
wrapping_sub a b = if leb b a then a - b else (a + u128_mod) - b

-- `10 * result + digit`, if it fits a u64.
abbrev next_u64 : ℕ → ℕ → Option ℕ
next_u64 result digit =
    if ltb (result * 10 + digit) u64_mod then some (result * 10 + digit) else none

unfoldable pub parse_u64_from : ℕ → Str → ℕ
parse_u64_from result [] = result
parse_u64_from result (b ∷ s) = elim (leb b'0' b && leb b b'9') [
  | false ↦ 0
  | true ↦ elim (next_u64 result (b - b'0')) [ none ↦ 0 | some w ↦ parse_u64_from w s ]
]

unfoldable pub parse_u64 : Str → ℕ
unfolding parse_u64_from
parse_u64 s = parse_u64_from 0 s

-- The part for an overflow.
abbrev scaled_output : ℕ → ℕ → ℕ → ℕ
scaled_output amount_in reserve_in reserve_out =
    u128 ((u128 (amount_in * precision) / saturating_add reserve_in amount_in) * reserve_out)
    / precision

unfoldable pub compute_output : ℕ → ℕ → ℕ → ℕ
compute_output amount_in reserve_in reserve_out =
    if (reserve_in == 0) || ((reserve_out == 0) || (amount_in == 0))
    then 0
    else elim (checked_mul amount_in reserve_out) [
      | none ↦ scaled_output amount_in reserve_in reserve_out
      | some num ↦ elim (checked_add reserve_in amount_in) [
        | none ↦ scaled_output amount_in reserve_in reserve_out
        | some den ↦ if ltb 0 den then num / den else scaled_output amount_in reserve_in reserve_out
      ]
    ]

-- What is left of the amount, and the fee.
unfoldable pub deduct_fee : ℕ → ℕ → ℕ × ℕ
deduct_fee amount fee_bps =
    let fee = u128 (amount * fee_bps) / bps_denominator in (wrapping_sub amount fee, fee)

-- Without overflow the output is the quotient.
pub compute_output_lem :
    (amount_in reserve_in reserve_out : ℕ)
    → reserve_in ≢ 0
    → amount_in * reserve_out < 2 ^ 128
    → reserve_in + amount_in < 2 ^ 128
    → compute_output amount_in reserve_in reserve_out
      ≡ (amount_in * reserve_out) / (reserve_in + amount_in)
unfolding compute_output
compute_output_lem amount_in reserve_in reserve_out some_in fits_num fits_den =
    let num : checked_mul amount_in reserve_out ≡ some (amount_in * reserve_out) = ground arith in
    let den : checked_add reserve_in amount_in ≡ some (reserve_in + amount_in) = ground arith in
    elim (Bool-cases ((reserve_in == 0) || ((reserve_out == 0) || (amount_in == 0)))) [
      | inl zero_case ↦
          let none_out : amount_in * reserve_out ≡ 0 = grind arith in
          rw (compute_output, zero_case, none_out) (grind arith)
      | inr usual ↦ rw (compute_output, usual, num, den) (ground arith)
    ]

pub quotient-mul : (n k : ℕ) → 0 < k → (n / k) * k ≤ n
quotient-mul n k pos = (le-div_iff_mul-le {k = k} {x = n / k} {y = n} pos).0 (omega arith)

keeps_at :
    (ri a amt d out : ℕ)
    → out * (ri + a) ≤ a * (out + d)
    → a ≤ amt
    → ri * (out + d) ≤ (ri + amt) * d
keeps_at ri a amt d out below le =
    let more : a * d ≤ amt * d = mul-le-mul le (omega arith) in grind (arith, below, more)

-- An output of at most the share `a / (ri + a)` of the reserve keeps the product of the reserves.
pub keeps_product :
    (ri a amt ro out : ℕ)
    → out ≤ ro
    → out * (ri + a) ≤ a * ro
    → a ≤ amt
    → ri * ro ≤ (ri + amt) * (ro - out)
keeps_product ri a amt ro out within below le =
    let e : ro ≡ out + (ro - out) = omega arith in
    let below' : out * (ri + a) ≤ a * (out + (ro - out)) = rw⁻¹ e below in
    let kept : ri * (out + (ro - out)) ≤ (ri + amt) * (ro - out) =
      keeps_at ri a amt (ro - out) out below' le in
    let e' : out + (ro - out) ≡ ro = omega arith in rw e' at kept

after_fee_le :
    (amount fee_bps : ℕ)
    → fee_bps ≤ max_fee_bps
    → amount * fee_bps < 2 ^ 128
    → (deduct_fee amount fee_bps).0 ≤ amount
unfolding deduct_fee
after_fee_le amount fee_bps small fits =
    let e : u128 (amount * fee_bps) ≡ amount * fee_bps = omega arith in
    let le : amount * fee_bps ≤ amount * 1_000 = mul-le-mul (omega arith) small in
    let below : (amount * fee_bps) / 10_000 ≤ amount = omega arith in rw e (ground arith)

compute_output_empty : (amount_in reserve_out : ℕ) → compute_output amount_in 0 reserve_out ≡ 0
unfolding compute_output
compute_output_empty amount_in reserve_out = ground arith

-- A trade without overflow keeps the product of the reserves.
pub trade_keeps_product :
    (amount fee ri ro : ℕ)
    → fee ≤ max_fee_bps
    → amount * fee < 2 ^ 128
    → amount * ro < 2 ^ 128
    → ri + amount < 2 ^ 128
    → let out = compute_output (deduct_fee amount fee).0 ri ro in
      out ≢ 0 → out < ro → ri * ro ≤ (ri + amount) * (ro - out)
trade_keeps_product amount fee ri ro small fits fits_num fits_den some_out covered =
    let a = (deduct_fee amount fee).0 in
    let le : a ≤ amount = after_fee_le amount fee small fits in
    let less : a * ro ≤ amount * ro = mul-le-mul le (omega arith) in
    let some_in : ri ≢ 0 = λ e. some_out (rw e (compute_output_empty a ro)) in
    let q : compute_output a ri ro ≡ (a * ro) / (ri + a) =
      compute_output_lem a ri ro some_in (omega arith) (omega arith) in
    let below : compute_output a ri ro * (ri + a) ≤ a * ro =
      rw q (quotient-mul (a * ro) (ri + a) (ground arith)) in
    keeps_product ri a amount ro (compute_output a ri ro) (omega arith) below le
