-- ===== src/Contracts/Token/Balances.antt =====
-- crates/los-contracts/src/usp01_token.rs: the store read as balances and allowances.
use unauthority_core.Base.{
  ℕ, zero, suc, List, [], ◌∷◌, get_elem?, Option-cases, ◌≤◌, ◌<◌, ◌≡◌, refl, sym, ◌^◌, ◌∙◌, Str,
  codes, str_eq, starts_with, length, length-take, take, length-from_utf8_lossy, ◌≢◌, none, some,
  arith, inl, inr, if◌then◌else◌,
}
use unauthority_core.Vm.Host.{HostData, host_get_arg, read_text, max_state_key_size}
use unauthority_core.Vm.Sdk.{caller, arg}
use unauthority_core.Contracts.Token.State.{
  bal_prefix, bal_key, allow_key, supply_key, get_balance, set_balance, get_allowance,
  set_allowance, set_total_supply,
}
use unauthority_core.Contracts.Token.Store.{HasRoom, read_text-short}
use unauthority_core.Contracts.Token.Numbers.{
  get_number-other, get_number-set_number, get_number-rewrite,
}

-- An address whose keys are written in full.
abbrev pub IsShortAddress : Str → Type 0
IsShortAddress a = length a ≤ 1_000

abbrev pub HasShortArgs : HostData → Type 0
HasShortArgs h = (i : ℕ) (s : Str) → arg i h ≡ some s → IsShortAddress s

-- Every text of the list is short.
abbrev pub AllShort : List Str → Type 0
AllShort [] = Unit {0}
AllShort (s ∷ l) = IsShortAddress s × AllShort l

listed_short :
    (l : List Str) (i : ℕ) (s : Str) → AllShort l → get_elem? l i ≡ some s → IsShortAddress s
listed_short [] i s all e = absurd (ground arith)
listed_short (x ∷ l) zero s all e = ground arith
listed_short (x ∷ l) (suc i) s all e = listed_short l i s all.1 (ground arith)

some_injective : (x s : Str) → some x ≡ some s → x ≡ s
some_injective x s e = ground arith

missing_arg : (i : ℕ) (h : HostData) (s : Str) → get_elem? h.args i ≡ none → ¬ (arg i h ≡ some s)
unfolding arg host_get_arg
missing_arg i h s missing e =
    let nothing : arg i h ≡ none = rw (arg, host_get_arg, missing) refl in absurd (ground arith)

pub AllShort-HasShortArgs : (h : HostData) → AllShort h.args → HasShortArgs h
unfolding arg host_get_arg read_text
AllShort-HasShortArgs h all i s e = elim (Option-cases (get_elem? h.args i)) [
  | inl missing ↦ absurd (missing_arg i h s missing e)
  | inr (x, at) ↦
      let short = listed_short h.args i x all at in
      let read : arg i h ≡ some x =
        rw (arg, host_get_arg, at, read_text-short 65_536 x (omega (arith, short))) refl in
      let same : some x ≡ some s = sym read ∙ e in rw⁻¹ (some_injective x s same) short
]

pub caller-IsShortAddress : (h : HostData) → IsShortAddress (caller h)
unfolding caller
caller-IsShortAddress h =
    omega (arith, length-take 256 h.caller, length-from_utf8_lossy (take 256 h.caller))

bal_key-short : (a : Str) → IsShortAddress a → length (bal_key a) < max_state_key_size
bal_key-short a short = omega arith

pub get_balance-set_balance :
    (a b : Str) (v : ℕ) (h : HostData)
    → IsShortAddress a
    → v < 2 ^ 128
    → HasRoom 1 h
    → get_balance a (set_balance b v h) ≡ (if str_eq a b then v else get_balance a h)
unfolding str_eq
get_balance-set_balance a b v h short_a fits room =
    get_number-set_number (bal_key a) (bal_key b) v h (bal_key-short a short_a) fits room

pub get_balance-set_allowance :
    (a owner spender : Str) (v : ℕ) (h : HostData)
    → HasRoom 1 h
    → get_balance a (set_allowance owner spender v h) ≡ get_balance a h
unfolding starts_with
get_balance-set_allowance a owner spender v h room =
    get_number-other bal_prefix (bal_key a) (allow_key owner spender) v h (omega arith)
      (ground arith) room

pub get_balance-set_total_supply :
    (a : Str) (v : ℕ) (h : HostData)
    → HasRoom 1 h
    → get_balance a (set_total_supply v h) ≡ get_balance a h
unfolding starts_with
get_balance-set_total_supply a v h room =
    get_number-other bal_prefix (bal_key a) supply_key v h (omega arith) (ground arith) room

pub get_allowance-set_balance :
    (owner spender b : Str) (v : ℕ) (h : HostData)
    → HasRoom 1 h
    → get_allowance owner spender (set_balance b v h) ≡ get_allowance owner spender h
unfolding starts_with
get_allowance-set_balance owner spender b v h room =
    get_number-other (codes "allow:") (allow_key owner spender) (bal_key b) v h (omega arith)
      (ground arith) room

-- An allowance that is not 0 stands at a key that is read, and so its new value is written there.
pub get_allowance-set_allowance :
    (owner spender : Str) (v : ℕ) (h : HostData)
    → get_allowance owner spender h ≢ 0
    → v < 2 ^ 128
    → HasRoom 1 h
    → get_allowance owner spender (set_allowance owner spender v h) ≡ v
get_allowance-set_allowance owner spender v h some_left fits room =
    get_number-rewrite (allow_key owner spender) v h some_left fits room
