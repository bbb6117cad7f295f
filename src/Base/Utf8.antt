-- ===== src/Base/Utf8.antt =====
-- Rust's `String::from_utf8_lossy` and `String::from_utf8`, which the virtual machine and the
-- contracts' wrappers call. A character that is not completed, and a byte that starts none, becomes
-- U+FFFD.
use Prim.Native.Nat.{ℕ, ◌+◌, ◌*◌, ◌≤◌, ◌<◌}
use mathlib.Core.Path.{◌≡◌, refl}
use mathlib.Core.Logic.{inl, inr}
use mathlib.Core.Bool.{Bool, ◌&&◌}
use mathlib.Core.Option.{Option, none, some}
use mathlib.Core.List.{List, [], ◌∷◌, ◌++◌}
use native.Mathlib.Omega.{arith}
use unauthority_core.Base.Tests.{ltb, leb, ◌==◌, if◌then◌else◌, Bool-cases, Option-cases}
use unauthority_core.Base.Lists.{length, length-append, All}
use unauthority_core.Base.Text.{Str, str_eq, str_eq_iff}

-- The bytes from the first number to the second.
abbrev pub Range : Type 0
Range = ℕ × ℕ

abbrev pub within : Range → ℕ → Bool
within r b = leb r.0 b && leb b r.1

abbrev pub any_next : Range
any_next = (128, 191)

-- What must follow a first byte; no value for a byte that starts no character.
unfoldable pub next_bytes : ℕ → Option (List Range)
next_bytes b =
    if ltb b 128
    then some []
    else if within (194, 223) b
    then some (any_next ∷ [])
    else if b == 224
    then some ((160, 191) ∷ any_next ∷ [])
    else if b == 237
    then some ((128, 159) ∷ any_next ∷ [])
    else if within (225, 239) b
    then some (any_next ∷ any_next ∷ [])
    else if b == 240
    then some ((144, 191) ∷ any_next ∷ any_next ∷ [])
    else if within (241, 243) b
    then some (any_next ∷ any_next ∷ any_next ∷ [])
    else if b == 244
    then some ((128, 143) ∷ any_next ∷ any_next ∷ [])
    else none

abbrev pub replacement : Str
replacement = 239 ∷ 191 ∷ 189 ∷ []

-- What is given out, and the bytes of the character under way with what must follow them.
pub record Step : Type 0 where
  pub out : Str
  pub begun : Str
  pub needs : List Range

unfoldable pub grow_char : Str → List Range → Step
grow_char begun [] = record { out = begun; begun = []; needs = [] }
grow_char begun (r ∷ needs) = record { out = []; begun = begun; needs = r ∷ needs }

unfoldable pub start_char : Str → ℕ → Step
start_char out b = elim (next_bytes b) [
  | none ↦ record { out = out ++ replacement; begun = []; needs = [] }
  | some needs ↦ let g = grow_char (b ∷ []) needs in record g { out = out ++ g.out }
]

-- A character under way that ends too soon.
unfoldable pub cut_off : Str → Str
cut_off [] = []
cut_off (b ∷ begun) = replacement

unfoldable pub next_char : Str → List Range → ℕ → Step
next_char begun [] b = start_char [] b
next_char begun (r ∷ needs) b =
    if within r b then grow_char (begun ++ (b ∷ [])) needs else start_char (cut_off begun) b

unfoldable pub repair : Str → List Range → Str → Str
repair begun needs [] = cut_off begun
repair begun needs (b ∷ s) = let n = next_char begun needs b in n.out ++ repair n.begun n.needs s

unfoldable pub from_utf8_lossy : Str → Str
from_utf8_lossy s = repair [] [] s

-- Every byte is given out as three bytes at most.
unfoldable IsBounded : ℕ → Step → Type 0
IsBounded n t = length t.out + 3 * length t.begun ≤ n

grow_char-IsBounded :
    (begun : Str) (needs : List Range) → IsBounded (3 * length begun) (grow_char begun needs)
unfolding grow_char IsBounded
grow_char-IsBounded begun [] = omega arith
grow_char-IsBounded begun (r ∷ needs) = omega arith

start_char-IsBounded : (out : Str) (b : ℕ) → IsBounded (length out + 3) (start_char out b)
unfolding start_char IsBounded grow_char
start_char-IsBounded out b = elim (Option-cases (next_bytes b)) [
  | inl e ↦ rw (start_char, e) (omega (arith, length-append out replacement))
  | inr (needs, e) ↦
      rw (start_char, e)
        (omega (
          arith,
          length-append out (grow_char (b ∷ []) needs).out,
          grow_char-IsBounded (b ∷ []) needs,
        ))
]

length-cut_off : (begun : Str) → length (cut_off begun) ≤ 3 * length begun
unfolding cut_off
length-cut_off [] = omega arith
length-cut_off (b ∷ begun) = omega arith

next_char-IsBounded :
    (begun : Str) (needs : List Range) (b : ℕ)
    → IsBounded (3 * length begun + 3) (next_char begun needs b)
unfolding next_char IsBounded
next_char-IsBounded begun [] b = omega (arith, start_char-IsBounded [] b)
next_char-IsBounded begun (r ∷ needs) b = elim (Bool-cases (within r b)) [
  | inl e ↦
      rw (next_char, e)
        (omega (arith, length-append begun (b ∷ []), grow_char-IsBounded (begun ++ (b ∷ [])) needs))
  | inr e ↦
      rw (next_char, e)
        (omega (arith, start_char-IsBounded (cut_off begun) b, length-cut_off begun))
]

length-repair :
    (begun : Str) (needs : List Range) (s : Str)
    → length (repair begun needs s) ≤ 3 * length begun + 3 * length s
unfolding repair IsBounded
length-repair begun needs [] = omega (arith, length-cut_off begun)
length-repair begun needs (b ∷ s) =
    let n = next_char begun needs b in
    omega (
      arith,
      length-append n.out (repair n.begun n.needs s),
      length-repair n.begun n.needs s,
      next_char-IsBounded begun needs b,
    )

pub length-from_utf8_lossy : (s : Str) → length (from_utf8_lossy s) ≤ 3 * length s
unfolding from_utf8_lossy
length-from_utf8_lossy s = omega (arith, length-repair [] [] s)

-- `String::from_utf8`: the bytes are a text if none of them is replaced.
unfoldable pub from_utf8 : Str → Option Str
from_utf8 s = if str_eq (from_utf8_lossy s) s then some s else none

abbrev pub IsAscii : Str → Type 0
IsAscii s = All (λ b. b < 128) s

repair-IsAscii : (s : Str) → IsAscii s → repair [] [] s ≡ s
unfolding repair next_char start_char next_bytes grow_char cut_off
repair-IsAscii [] h = refl
repair-IsAscii (b ∷ s) h = ground (arith, repair-IsAscii s h.1)

pub from_utf8-IsAscii : (s : Str) → IsAscii s → from_utf8 s ≡ some s
unfolding from_utf8 from_utf8_lossy
from_utf8-IsAscii s h =
    rw (from_utf8, from_utf8_lossy, repair-IsAscii s h) (ground (arith, str_eq_iff s s))
