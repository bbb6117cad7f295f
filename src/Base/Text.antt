-- ===== src/Base/Text.antt =====
-- Texts as the bytes of their UTF-8 form, with the functions of Rust's `str` that the program uses.
use Prim.Native.Char.{code}
use Prim.Native.Nat.{ℕ, zero, suc, ◌+◌, ◌-◌, ◌/◌, ◌%◌}
use Prim.Native.String.{String}
use mathlib.Core.Path.{◌≡◌, refl}
use mathlib.Core.Logic.{◌↔◌}
use mathlib.Core.Bool.{Bool, true, false, ◌&&◌, ◌||◌, not}
use mathlib.Core.List.{List, [], ◌∷◌}
use mathlib.Core.Option.{Option, none, some}
use native.Mathlib.Omega.{arith}
use unauthority_core.Base.Tests.{Key, ltb, leb, ◌==◌, if◌then◌else◌}
use unauthority_core.Base.Word.{checked_mul, checked_add}
use unauthority_core.Base.Lists.{drop, length, get_elem?}

abbrev pub Str : Type 0
Str = List ℕ

-- The bytes of an ASCII literal.
abbrev pub codes : String → Str
codes String.[] = []
codes (String.◌∷◌ c s) = code c ∷ codes s

unfoldable pub str_eq : Str → Str → Bool
str_eq [] [] = true
str_eq [] (b ∷ t) = false
str_eq (a ∷ s) [] = false
str_eq (a ∷ s) (b ∷ t) = (a == b) && str_eq s t

pub str_eq_iff : (s t : Str) → (str_eq s t ≡ true) ↔ (s ≡ t)
unfolding str_eq
str_eq_iff [] [] = ground arith
str_eq_iff [] (b ∷ t) = ground arith
str_eq_iff (a ∷ s) [] = ground arith
str_eq_iff (a ∷ s) (b ∷ t) = ground (arith, str_eq_iff s t)

-- `str` is ordered by its bytes.
unfoldable pub str_ltb : Str → Str → Bool
str_ltb s [] = false
str_ltb [] (b ∷ t) = true
str_ltb (a ∷ s) (b ∷ t) = ltb a b || ((a == b) && str_ltb s t)

-- `s[..i]` panics unless `i` is the end of the text or the start of a character.
unfoldable pub is_char_boundary : Str → ℕ → Bool
is_char_boundary s i =
    if (i == 0) || (i == length s)
    then true
    else elim (get_elem? s i) [ none ↦ false | some b ↦ not (leb 128 b && leb b 191) ]

instance abbrev pub str_key : Key Str
str_key = record { beq = str_eq; key_ltb = str_ltb; beq_iff = str_eq_iff }

-- `s.starts_with(p)`
unfoldable pub starts_with : Str → Str → Bool
starts_with s [] = true
starts_with [] (b ∷ p) = false
starts_with (a ∷ s) (b ∷ p) = (a == b) && starts_with s p

-- `s.split(c)`, of a one-byte separator: the pieces so far are kept in `piece`, reversed.
abbrev push_byte : ℕ → List Str → List Str
push_byte b [] = (b ∷ []) ∷ []
push_byte b (p ∷ ps) = (b ∷ p) ∷ ps

unfoldable pub split : ℕ → Str → List Str
split c [] = [] ∷ []
split c (b ∷ s) = let rest = split c s in if b == c then [] ∷ rest else push_byte b rest

-- The width in bytes of the white space (Unicode `White_Space`) at the front, 0 if there is none.
abbrev space_width : Str → ℕ
space_width [] = 0
space_width (a ∷ []) = if (a == 32) || (leb 9 a && leb a 13) then 1 else 0
space_width (a ∷ b ∷ []) =
    if (a == 32) || (leb 9 a && leb a 13)
    then 1
    else if (a == 0xc2) && ((b == 0x85) || (b == 0xa0))
    then 2
    else 0
space_width (a ∷ b ∷ c ∷ r) =
    if (a == 32) || (leb 9 a && leb a 13)
    then 1
    else if (a == 0xc2) && ((b == 0x85) || (b == 0xa0))
    then 2
    else if (a == 0xe1) && (b == 0x9a) && (c == 0x80)
    then 3
    else if (a == 0xe2) && (b == 0x80) && (leb c 0x8a || (c == 0xa8) || (c == 0xa9) || (c == 0xaf))
    then 3
    else if (a == 0xe2) && (b == 0x81) && (c == 0x9f)
    then 3
    else if (a == 0xe3) && (b == 0x80) && (c == 0x80)
    then 3
    else 0

-- Each round but the last drops a byte, so `length` rounds are enough.
trim_start_from : ℕ → Str → Str
trim_start_from zero s = s
trim_start_from (suc n) s =
    let rest = trim_start_from n (drop (space_width s) s) in if space_width s == 0 then s else rest

abbrev is_blank : Str → Bool
is_blank [] = true
is_blank (b ∷ s) = false

trim_end : Str → Str
unfolding trim_start_from
trim_end [] = []
trim_end (b ∷ s) =
    let rest = trim_end s in
    if is_blank (trim_start_from (length (b ∷ s)) (b ∷ s)) then [] else b ∷ rest

-- `s.trim()`
unfoldable pub trim : Str → Str
unfolding trim_start_from trim_end
trim s = trim_end (trim_start_from (length s) s)

digits_from : ℕ → Str → Option ℕ
digits_from acc [] = some acc
digits_from acc (b ∷ s) =
    if leb b'0' b && leb b b'9'
    then elim (checked_mul acc 10) [
      | none ↦ none
      | some t ↦ elim (checked_add t (b - b'0')) [ none ↦ none | some u ↦ digits_from u s ]
    ]
    else none

abbrev parse_digits : Str → Option ℕ
unfolding digits_from
parse_digits [] = none
parse_digits (b ∷ s) = digits_from 0 (b ∷ s)

-- `s.parse::<u128>().ok()`: an optional plus sign, then decimal digits that fit.
unfoldable pub parse_u128 : Str → Option ℕ
unfolding digits_from
parse_u128 [] = none
parse_u128 (b ∷ s) = if b == b'+' then parse_digits s else parse_digits (b ∷ s)

-- The decimal digits of a number, `format!("{}", n)`. Forty rounds are enough for a u128.
print_from : ℕ → ℕ → Str → Str
print_from zero n rest = rest
print_from (suc rounds) n rest =
    let more = print_from rounds (n / 10) ((b'0' + n % 10) ∷ rest) in
    if ltb n 10 then (b'0' + n) ∷ rest else more

unfoldable pub decimal : ℕ → Str
unfolding print_from
decimal n = print_from 40 n []

decimal_runs :
    decimal 340282366920938463463374607431768211455
    ≡ codes "340282366920938463463374607431768211455"
unfolding decimal
decimal_runs = refl
