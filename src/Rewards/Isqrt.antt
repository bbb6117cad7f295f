-- ===== src/Rewards/Isqrt.antt =====
-- The integer square root by Newton's method.
use unauthority_core.Base.{
  ℕ, zero, suc, ◌+◌, ◌-◌, ◌*◌, ◌/◌, ◌^◌, ◌≤◌, ◌<◌, ◌≡◌, refl, arith, ltb, leb, ◌==◌, u128, inl, inr,
  Bool-cases,
}
use unauthority_core.Rewards.State.{isqrt, newton}
use native.Mathlib.Nat.{div-le_self, mul-le-mul, mul_comm, div-lt_iff_lt-mul, le-div_iff_mul-le}

-- The square of a mean is at least the product.
mean_squared_from : (x d s : ℕ) → 2 * x + d ≤ 2 * s → x * (x + d) ≤ s * s
mean_squared_from x d s h = grind (arith, mul-le-mul h h)

mean_squared : (x q s : ℕ) → x + q ≤ 2 * s → x * q ≤ s * s
mean_squared x q s h = elim (Bool-cases (leb x q)) [
  | inl le ↦
      let e : q ≡ x + (q - x) = ground arith in rw e (mean_squared_from x (q - x) s (ground arith))
  | inr gt ↦
      let e : x ≡ q + (x - q) = ground arith in
      rw (mul_comm x q, e) (mean_squared_from q (x - q) s (ground arith))
]

-- Every iterate is at least the root.
iterate_above : (n x s : ℕ) → 0 < x → s ≡ (x + n / x) / 2 → n < (s + 1) * (s + 1)
iterate_above n x s pos e =
    let below : n < (n / x + 1) * x =
      (div-lt_iff_lt-mul {k = x} {x = n} {y = n / x + 1} pos).0 (omega arith) in
    omega (arith, below, mean_squared x (n / x + 1) (s + 1) (omega arith), mul_comm x (n / x + 1))

-- An iterate that is not greater than the next is at most the root.
stops_below : (n x s : ℕ) → 0 < x → s ≡ (x + n / x) / 2 → x ≤ s → x * x ≤ n
stops_below n x s pos e le = (le-div_iff_mul-le {k = x} {x = x} {y = n} pos).0 (omega arith)

iterate_positive : (n x s : ℕ) → 0 < n → 0 < x → s ≡ (x + n / x) / 2 → 0 < s
iterate_positive n x s pos_n pos e = elim (Bool-cases (leb x n)) [
  | inl within ↦
      let at_least : 1 ≤ n / x = (le-div_iff_mul-le {k = x} {x = 1} {y = n} pos).1 (ground arith) in
      omega (arith, at_least)
  | inr beyond ↦ ground arith
]

abbrev pub IsRoot : ℕ → ℕ → Type 0
IsRoot n r = (r * r ≤ n) × (n < (r + 1) * (r + 1))

newton-IsRoot :
    (rounds n x y : ℕ)
    → 0 < n
    → n < 2 ^ 127
    → 0 < x
    → x ≤ rounds
    → x ≤ n
    → y ≡ (x + n / x) / 2
    → n < (x + 1) * (x + 1)
    → IsRoot n (newton rounds n x y)
unfolding newton
newton-IsRoot zero n x y pos_n fits pos enough le e above = absurd (omega arith)
newton-IsRoot (suc rounds) n x y pos_n fits pos enough le e above = elim (Bool-cases (ltb y x)) [
  | inl less ↦
      let smaller : y < x = ground arith in
      let pos_y : 0 < y = iterate_positive n x y pos_n pos e in
      let no_wrap : u128 (y + n / y) ≡ y + n / y = omega (arith, div-le_self n y) in
      rw (newton, less, no_wrap)
        (newton-IsRoot rounds n y ((y + n / y) / 2) pos_n fits pos_y (omega arith) (omega arith)
          refl (iterate_above n x y pos e))
  | inr stop ↦ rw (newton, stop) (stops_below n x y pos e (ground arith), above)
]

div_self : (n : ℕ) → 0 < n → n / n ≡ 1
div_self n pos = omega (
  arith,
  (div-lt_iff_lt-mul {k = n} {x = n} {y = 2} pos).1 (omega arith),
  (le-div_iff_mul-le {k = n} {x = 1} {y = n} pos).1 (omega arith),
)

-- For a number below 2^127, the loop ends with the integer square root: the greatest number whose
-- square is at most the argument.
pub isqrt-IsRoot : (n : ℕ) → n < 2 ^ 127 → IsRoot n (isqrt n)
unfolding isqrt
isqrt-IsRoot n fits = elim (Bool-cases (n == 0)) [
  | inl nothing ↦ rw (isqrt, nothing) (ground arith)
  | inr positive ↦
      let pos : 0 < n = ground arith in
      rw (isqrt, positive)
        (newton-IsRoot n n n ((n + 1) / 2) pos fits pos (omega arith) (omega arith)
          (omega (arith, div_self n pos)) (grind arith))
]
