-- ===== src/Contracts/Decimal.antt =====
-- crates/los-contracts/src/lib.rs: numbers as decimal texts, in which the contracts store them.
use unauthority_core.Base.{
  ℕ, zero, suc, true, false, ◌+◌, ◌-◌, ◌*◌, ◌/◌, ◌%◌, ◌^◌, ◌≤◌, ◌<◌, ◌≡◌, refl, ◌∙◌, Str, none,
  some, [], ◌∷◌, arith, ◌==◌, leb, ◌&&◌, checked_mul, checked_add, if◌then◌else◌, length, inl, inr,
  Bool-cases, ◌⊎◌, IsAscii, from_utf8, from_utf8_lossy, from_utf8-IsAscii, str_eq,
}

-- The loop over the bytes; `none` of a checked operation, and a byte that is no digit, give 0.
unfoldable pub parse_from : ℕ → Str → ℕ
parse_from result [] = result
parse_from result (b ∷ s) = elim (leb b'0' b && leb b b'9') [
  | false ↦ 0
  | true ↦ elim (checked_mul result 10) [
    | none ↦ 0
    | some v ↦ elim (checked_add v (b - b'0')) [ none ↦ 0 | some w ↦ parse_from w s ]
  ]
]

unfoldable pub parse_u128 : Str → ℕ
unfolding parse_from
parse_u128 s = parse_from 0 s

-- The loop `while v > 0`, which puts each digit before those that are there.
unfoldable pub digits : ℕ → ℕ → Str → Str
digits zero v out = out
digits (suc rounds) v out = elim (v == 0) [
  | true ↦ out
  | false ↦ digits rounds (v / 10) ((b'0' + v % 10) ∷ out)
]

-- A u128 has at most 39 digits; the buffer has 40.
unfoldable pub u128_to_str : ℕ → Str
unfolding digits
u128_to_str val = if val == 0 then b'0' ∷ [] else digits 40 val []

-- What that many digits can tell apart.
abbrev covers : ℕ → ℕ
covers zero = 1
covers (suc rounds) = 10 * covers rounds

parse-digits :
    (rounds v : ℕ) (out : Str)
    → v < covers rounds
    → v < 2 ^ 128
    → parse_from 0 (digits rounds v out) ≡ parse_from v out
unfolding digits parse_from
parse-digits zero v out enough fits = let e : v ≡ 0 = omega arith in rw e refl
parse-digits (suc rounds) v out enough fits = elim (Bool-cases (v == 0)) [
  | inl done ↦ let e : v ≡ 0 = ground arith in rw (e, digits) refl
  | inr more ↦
      rw (more, digits)
        (parse-digits rounds (v / 10) ((b'0' + v % 10) ∷ out) (omega arith) (omega arith)
          ∙ ground arith)
]

parse_from_fits : (result : ℕ) (s : Str) → result < 2 ^ 128 → parse_from result s < 2 ^ 128
unfolding parse_from
parse_from_fits result [] h = h
parse_from_fits result (b ∷ s) h = ground (arith, parse_from_fits (result * 10 + (b - b'0')) s)

-- What is parsed fits a u128.
pub parse_u128_fits : (s : Str) → parse_u128 s < 2 ^ 128
unfolding parse_u128
parse_u128_fits s = parse_from_fits 0 s (omega arith)

digits-IsAscii : (rounds v : ℕ) (out : Str) → IsAscii out → IsAscii (digits rounds v out)
unfolding digits
digits-IsAscii zero v out ascii = ascii
digits-IsAscii (suc rounds) v out ascii = elim (Bool-cases (v == 0)) [
  | inl done ↦ rw (digits, done) ascii
  | inr more ↦
      rw (digits, more)
        (digits-IsAscii rounds (v / 10) ((b'0' + v % 10) ∷ out) (omega arith, ascii))
]

pub u128_to_str-IsAscii : (v : ℕ) → IsAscii (u128_to_str v)
unfolding u128_to_str
u128_to_str-IsAscii v = elim (Bool-cases (v == 0)) [
  | inl nothing ↦ rw (u128_to_str, nothing) (omega arith, tt)
  | inr some_left ↦ rw (u128_to_str, some_left) (digits-IsAscii 40 v [] tt)
]

-- What is no decimal number is read as 0.
parse_from-IsAscii : (result : ℕ) (s : Str) → IsAscii s ⊎ (parse_from result s ≡ 0)
unfolding parse_from
parse_from-IsAscii result [] = inl tt
parse_from-IsAscii result (b ∷ s) = elim (Bool-cases (leb b'0' b && leb b b'9')) [
  | inr other ↦ inr (rw (parse_from, other) refl)
  | inl digit ↦ elim (parse_from-IsAscii (result * 10 + (b - b'0')) s) [
    | inl ascii ↦ inl (ground arith, ascii)
    | inr nothing ↦ inr (ground (arith, nothing))
  ]
]

-- A text that is no UTF-8 is no number.
pub parse-from_utf8 :
    (s : Str) → (from_utf8 s ≡ some s) ⊎ ((from_utf8 s ≡ none) × (parse_u128 s ≡ 0))
unfolding from_utf8 parse_u128
parse-from_utf8 s = elim (parse_from-IsAscii 0 s) [
  | inl ascii ↦ inl (from_utf8-IsAscii s ascii)
  | inr nothing ↦ elim (Bool-cases (str_eq (from_utf8_lossy s) s)) [
    | inl text ↦ inl (rw (from_utf8, text) refl)
    | inr broken ↦ inr (rw (from_utf8, broken) refl, nothing)
  ]
]

length-digits : (rounds v : ℕ) (out : Str) → length (digits rounds v out) ≤ rounds + length out
unfolding digits
length-digits zero v out = omega arith
length-digits (suc rounds) v out =
    ground (arith, length-digits rounds (v / 10) ((b'0' + v % 10) ∷ out))

pub length-u128_to_str : (v : ℕ) → length (u128_to_str v) ≤ 40
unfolding u128_to_str
length-u128_to_str v = ground (arith, length-digits 40 v [])

-- A u128 that is written as a decimal text is read back as it was.
pub parse-u128_to_str : (v : ℕ) → v < 2 ^ 128 → parse_u128 (u128_to_str v) ≡ v
unfolding parse_u128 u128_to_str
parse-u128_to_str v fits = elim (Bool-cases (v == 0)) [
  | inl none_left ↦ let e : v ≡ 0 = ground arith in rw e refl
  | inr more ↦ rw more (parse-digits 40 v [] (omega arith) fits)
]
