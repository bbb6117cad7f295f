-- ===== src/Contracts/Token/Writes.antt =====
-- crates/los-contracts/src/usp01_token.rs: what the writes of balances, allowances and the supply
-- leave as it was.
use unauthority_core.Base.{
  ℕ, ◌+◌, ◌-◌, ◌≤◌, ◌<◌, ◌≡◌, refl, ◌^◌, ◌∙◌, Str, codes, str_eq, str_eq_iff, starts_with, true,
  false, none, some, arith, ltb, length, checked_sub, checked_add, u128_mod, inl, inr, Bool-cases,
}
use unauthority_core.Base.Outcome.{ok}
use unauthority_core.Vm.Host.{HostData, max_state_key_size}
use unauthority_core.Contracts.Decimal.{parse_u128_fits, u128_to_str}
use unauthority_core.Contracts.Token.State.{
  bal_prefix, bal_key, allow_key, supply_key, get_number, set_number, get_balance, set_balance,
  set_allowance, get_total_supply, set_total_supply, is_initialized,
}
use unauthority_core.Contracts.Token.{debit, credit, is_wrapped, max_supply_of}
use unauthority_core.Contracts.Token.Store.{HasRoom, HasShortValues, get_str-other}
use unauthority_core.Contracts.Token.Numbers.{
  get_number-other, get_number-set_number, set_number-HasRoom, set_number-HasShortValues,
}
use unauthority_core.Contracts.Token.Outstanding.{
  outstanding, set_balance-outstanding, set_str-outstanding,
}

-- The metadata are the same, every value can be read, and there is room for more writes.
pub record Kept (n : ℕ) (h h' : HostData) : Type 0 where
  pub room : HasRoom n h'
  pub short : HasShortValues h'
  pub same_init : is_initialized h' ≡ is_initialized h
  pub same_wrapped : is_wrapped h' ≡ is_wrapped h
  pub same_cap : max_supply_of h' ≡ max_supply_of h

pub Kept-trans : (m n : ℕ) (a b c : HostData) → Kept m a b → Kept n b c → Kept n a c
Kept-trans m n a b c k l = record {
  room = l.room;
  short = l.short;
  same_init = l.same_init ∙ k.same_init;
  same_wrapped = l.same_wrapped ∙ k.same_wrapped;
  same_cap = l.same_cap ∙ k.same_cap;
}

pub less_room : {n : ℕ} {h h' : HostData} → Kept (n + 1) h h' → Kept n h h'
less_room k = record {
  room = omega (arith, k.room);
  short = k.short;
  same_init = k.same_init;
  same_wrapped = k.same_wrapped;
  same_cap = k.same_cap;
}

-- A key that differs from those of the metadata in a prefix.
module _ (p key : Str) (v n : ℕ) (h : HostData) (short_p : length p ≤ max_state_key_size)
    (is_p : starts_with key p ≡ true) (not_init : starts_with (codes "usp01:init") p ≡ false)
    (not_wrapped : starts_with (codes "usp01:is_wrapped") p ≡ false)
    (not_cap : starts_with (codes "usp01:max_supply") p ≡ false) (room : HasRoom (n + 1) h)
    (short : HasShortValues h) where
  set_number-Kept : Kept n h (set_number key v h)
  unfolding is_initialized set_number
  set_number-Kept =
      let one : HasRoom 1 h = omega arith in
      record {
        room = set_number-HasRoom n key v h room;
        short = set_number-HasShortValues key v h one short;
        same_init =
            rw
              (get_str-other p (codes "usp01:init") key (u128_to_str v) h short_p (ground arith)
                one)
              refl;
        same_wrapped =
            rw
              (get_str-other p (codes "usp01:is_wrapped") key (u128_to_str v) h short_p
                (ground arith) one)
              refl;
        same_cap = get_number-other p (codes "usp01:max_supply") key v h short_p (ground arith) one;
      }

pub set_balance-Kept :
    (n : ℕ) (addr : Str) (v : ℕ) (h : HostData)
    → HasRoom (n + 1) h
    → HasShortValues h
    → Kept n h (set_balance addr v h)
unfolding starts_with
set_balance-Kept n addr v h =
    set_number-Kept bal_prefix (bal_key addr) v n h (omega arith) refl refl refl refl

pub set_allowance-Kept :
    (n : ℕ) (owner spender : Str) (v : ℕ) (h : HostData)
    → HasRoom (n + 1) h
    → HasShortValues h
    → Kept n h (set_allowance owner spender v h)
unfolding starts_with
set_allowance-Kept n owner spender v h =
    set_number-Kept (codes "allow:") (allow_key owner spender) v n h (omega arith) refl refl refl
      refl

pub set_total_supply-Kept :
    (n v : ℕ) (h : HostData)
    → HasRoom (n + 1) h
    → HasShortValues h
    → Kept n h (set_total_supply v h)
unfolding starts_with
set_total_supply-Kept n v h =
    set_number-Kept supply_key supply_key v n h (omega arith) refl refl refl refl

pub set_balance-supply :
    (addr : Str) (v : ℕ) (h : HostData)
    → HasRoom 1 h
    → get_total_supply (set_balance addr v h) ≡ get_total_supply h
unfolding starts_with
set_balance-supply addr v h room =
    get_number-other bal_prefix supply_key (bal_key addr) v h (omega arith) (ground arith) room

pub set_allowance-supply :
    (owner spender : Str) (v : ℕ) (h : HostData)
    → HasRoom 1 h
    → get_total_supply (set_allowance owner spender v h) ≡ get_total_supply h
unfolding starts_with
set_allowance-supply owner spender v h room =
    get_number-other (codes "allow:") supply_key (allow_key owner spender) v h (omega arith)
      (ground arith) room

pub set_allowance-outstanding :
    (owner spender : Str) (v : ℕ) (h : HostData)
    → HasRoom 1 h
    → outstanding (set_allowance owner spender v h) ≡ outstanding h
unfolding starts_with set_number
set_allowance-outstanding owner spender v h room =
    set_str-outstanding (allow_key owner spender) (u128_to_str v) h refl room

pub set_total_supply-outstanding :
    (v : ℕ) (h : HostData) → HasRoom 1 h → outstanding (set_total_supply v h) ≡ outstanding h
unfolding starts_with set_number
set_total_supply-outstanding v h room = set_str-outstanding supply_key (u128_to_str v) h refl room

pub set_total_supply_lem :
    (v : ℕ) (h : HostData) → v < 2 ^ 128 → HasRoom 1 h → get_total_supply (set_total_supply v h) ≡ v
set_total_supply_lem v h fits room =
    let same : str_eq supply_key supply_key ≡ true = (str_eq_iff supply_key supply_key).1 refl in
    get_number-set_number supply_key supply_key v h (omega arith) fits room ∙ rw same refl

pub get_number_fits : (key : Str) (h : HostData) → get_number key h < 2 ^ 128
unfolding get_number
get_number_fits key h = parse_u128_fits _

-- A covered debit.
pub debit_lem :
    (n : ℕ) (addr : Str) (amount : ℕ) (h : HostData)
    → amount ≤ get_balance addr h
    → HasRoom (n + 1) h
    → HasShortValues h
    → let h' = set_balance addr (get_balance addr h - amount) h in
      (debit addr amount h ≡ (ok tt, h'))
      × (outstanding h' + amount ≡ outstanding h)
      × (get_total_supply h' ≡ get_total_supply h)
      × Kept n h h'
unfolding debit
debit_lem n addr amount h covered room short =
    let e : checked_sub (get_balance addr h) amount ≡ some (get_balance addr h - amount) =
      ground arith in
    let fits : get_balance addr h - amount < 2 ^ 128 =
      omega (arith, get_number_fits (bal_key addr) h) in
    (
      rw (debit, e) refl,
      elim (set_balance-outstanding addr (get_balance addr h - amount) h fits (omega arith) short) [
        | inl sum ↦ omega arith
        | inr (same, gone) ↦ omega arith
      ],
      set_balance-supply addr (get_balance addr h - amount) h (omega arith),
      set_balance-Kept n addr (get_balance addr h - amount) h room short,
    )

-- A credit that fits.
pub credit_lem :
    (n : ℕ) (addr : Str) (amount : ℕ) (h : HostData)
    → get_balance addr h + amount < 2 ^ 128
    → HasRoom (n + 1) h
    → HasShortValues h
    → let h' = set_balance addr (get_balance addr h + amount) h in
      (credit addr amount h ≡ (ok tt, h'))
      × (outstanding h' ≤ outstanding h + amount)
      × (get_total_supply h' ≡ get_total_supply h)
      × Kept n h h'
unfolding credit
credit_lem n addr amount h fits room short =
    let e : checked_add (get_balance addr h) amount ≡ some (get_balance addr h + amount) =
      ground arith in
    (
      rw (credit, e) refl,
      elim (set_balance-outstanding addr (get_balance addr h + amount) h fits (omega arith) short) [
        | inl sum ↦ omega arith
        | inr (same, gone) ↦ omega arith
      ],
      set_balance-supply addr (get_balance addr h + amount) h (omega arith),
      set_balance-Kept n addr (get_balance addr h + amount) h room short,
    )

-- Any credit.
pub credit-Kept :
    (n : ℕ) (addr : Str) (amount : ℕ) (h : HostData)
    → HasRoom (n + 1) h
    → HasShortValues h
    → Kept n h (credit addr amount h).1
unfolding credit
credit-Kept n addr amount h room short =
    elim (Bool-cases (ltb (get_balance addr h + amount) u128_mod)) [
      | inl fits ↦
          let (done, sum, supply, kept) = credit_lem n addr amount h (ground arith) room short in
          rw done kept
      | inr over ↦
          let e : checked_add (get_balance addr h) amount ≡ none = ground arith in
          rw (credit, e)
            (record {
              room = omega arith;
              short = short;
              same_init = refl;
              same_wrapped = refl;
              same_cap = refl;
            })
    ]
