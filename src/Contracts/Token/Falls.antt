-- ===== src/Contracts/Token/Falls.antt =====
-- crates/los-contracts/src/usp01_token.rs: how much each write can take from a balance.
use unauthority_core.Base.{
  ℕ, ◌+◌, ◌-◌, ◌≤◌, ◌<◌, ◌≡◌, refl, ◌^◌, Str, str_eq, str_eq_iff, Bool-cases, none, some, arith,
  inl, inr, ltb, if◌then◌else◌, checked_add, checked_sub, u128_mod,
}
use unauthority_core.Base.Outcome.{Outcome, ok, err, panic}
use unauthority_core.Vm.Host.{HostData}
use unauthority_core.Contracts.Token.State.{
  TokenError, and_then, supply_key, bal_key, allow_key, get_balance, set_allowance,
  set_total_supply,
}
use unauthority_core.Contracts.Token.{debit, credit}
use unauthority_core.Contracts.Token.Store.{HasRoom}
use unauthority_core.Contracts.Token.Numbers.{set_number-HasRoom}
use unauthority_core.Contracts.Token.Writes.{get_number_fits}
use unauthority_core.Contracts.Token.Balances.{
  IsShortAddress, get_balance-set_balance, get_balance-set_allowance, get_balance-set_total_supply,
}

-- What an account loses at most if `from` pays.
abbrev pub cost : Str → ℕ → Str → ℕ
cost from amount a = if str_eq a from then amount else 0

-- At most that much less is in each account.
pub record FallsBy (n : ℕ) (loss : Str → ℕ) (h h' : HostData) : Type 0 where
  pub room : HasRoom n h'
  pub falls : (a : Str) → IsShortAddress a → get_balance a h ≤ get_balance a h' + loss a

pub credit-FallsBy :
    (n : ℕ) (to : Str) (amount : ℕ) (h : HostData)
    → HasRoom (n + 1) h
    → FallsBy n (λ a. 0) h (credit to amount h).1
unfolding credit
credit-FallsBy n to amount h room = elim (Bool-cases (ltb (get_balance to h + amount) u128_mod)) [
  | inr over ↦
      let e : checked_add (get_balance to h) amount ≡ none = ground arith in
      rw (credit, e) (record { room = omega arith; falls = λ a short_a. omega arith })
  | inl fits ↦
      let w = get_balance to h + amount in
      let e : checked_add (get_balance to h) amount ≡ some w = ground arith in
      rw (credit, e)
        (record {
          room = set_number-HasRoom n (bal_key to) w h room;
          falls = λ a short_a.
              rw (get_balance-set_balance a to w h short_a (ground arith) (omega arith))
                (ground (arith, str_eq_iff a to));
        })
]

pub debit-FallsBy :
    (n : ℕ) (from : Str) (amount : ℕ) (h : HostData)
    → amount ≤ get_balance from h
    → HasRoom (n + 1) h
    → ((debit from amount h).0 ≡ ok tt) × FallsBy n (cost from amount) h (debit from amount h).1
unfolding debit
debit-FallsBy n from amount h covered room =
    let w = get_balance from h - amount in
    let e : checked_sub (get_balance from h) amount ≡ some w = ground arith in
    let fits : w < 2 ^ 128 = omega (arith, get_number_fits (bal_key from) h) in
    rw (debit, e)
      (
        refl,
        record {
          room = set_number-HasRoom n (bal_key from) w h room;
          falls = λ a short_a.
              rw (get_balance-set_balance a from w h short_a fits (omega arith))
                (ground (arith, str_eq_iff a from));
        },
      )

-- A second part of a function that lowers no balance.
pub then_FallsBy :
    (n m : ℕ) (loss : Str → ℕ) (h : HostData) (r : Outcome TokenError (Unit {0}) × HostData)
    (f : HostData → Outcome TokenError (Unit {0}) × HostData)
    → FallsBy (n + m) loss h r.1
    → ((x : HostData) → HasRoom (n + m) x → FallsBy n (λ a. 0) x (f x).1)
    → FallsBy n loss h (and_then r f).1
then_FallsBy n m loss h (ok tt, x) f k g =
    let l = g x k.room in
    record { room = l.room; falls = λ a short. omega (arith, k.falls a short, l.falls a short) }
then_FallsBy n m loss h (err e, x) f k g = record { room = omega (arith, k.room); falls = k.falls }
then_FallsBy n m loss h (panic, x) f k g = record { room = omega (arith, k.room); falls = k.falls }

pub allowance-FallsBy :
    (owner spender : Str) (v : ℕ) (h : HostData)
    → HasRoom 1 h
    → FallsBy 0 (λ a. 0) h (set_allowance owner spender v h)
allowance-FallsBy owner spender v h room = record {
  room = set_number-HasRoom 0 (allow_key owner spender) v h room;
  falls = λ a short. rw (get_balance-set_allowance a owner spender v h room) (omega arith);
}

pub supply-FallsBy :
    (v : ℕ) (h : HostData) → HasRoom 1 h → FallsBy 0 (λ a. 0) h (set_total_supply v h)
supply-FallsBy v h room = record {
  room = set_number-HasRoom 0 supply_key v h room;
  falls = λ a short. rw (get_balance-set_total_supply a v h room) (omega arith);
}
