-- ===== src/Contracts/Token/Transfer.antt =====
-- crates/los-contracts/src/usp01_token.rs, `transfer` and `transfer_from`: what they do to balances
-- and allowances.
use unauthority_core.Base.{
  ℕ, ◌≢◌, ◌+◌, ◌-◌, ◌≤◌, ◌<◌, ◌≡◌, refl, ◌^◌, ◌∙◌, Str, str_eq, str_eq_iff, false, Bool-cases, none,
  some, arith, inl, inr, ltb, if◌then◌else◌, checked_add, checked_sub, u128_mod,
}
use unauthority_core.Base.Outcome.{Outcome, ok, err, panic, Outcome-cases}
use unauthority_core.Vm.Host.{HostData}
use unauthority_core.Vm.Sdk.{caller, arg}
use unauthority_core.Contracts.Token.State.{
  TokenError, and_then, bal_key, allow_key, amount_arg, get_balance, set_balance, get_allowance,
  set_allowance, get_total_supply,
}
use unauthority_core.Contracts.Token.{
  debit, credit, check_transfer, transfer, check_transfer_from, transfer_from,
}
use unauthority_core.Contracts.Token.Guards.{
  check_transfer-MayTransfer, check_transfer_from-MayTransferFrom,
}
use unauthority_core.Contracts.Token.Store.{HasRoom}
use unauthority_core.Contracts.Token.Numbers.{set_number-HasRoom}
use unauthority_core.Contracts.Token.Writes.{
  get_number_fits, set_balance-supply, set_allowance-supply,
}
use unauthority_core.Contracts.Token.Balances.{
  IsShortAddress, HasShortArgs, caller-IsShortAddress, get_balance-set_balance,
  get_balance-set_allowance, get_allowance-set_balance, get_allowance-set_allowance,
}

-- The balances after a payment between two accounts.
abbrev pub paid : Str → Str → ℕ → (Str → ℕ) → Str → ℕ
paid from to amount balances a =
    if str_eq a from
    then balances a - amount
    else if str_eq a to
    then balances a + amount
    else balances a

-- What a payment does to the store.
pub record Pays (from to : Str) (amount : ℕ) (h h' : HostData) : Type 0 where
  pub covered : amount ≤ get_balance from h
  pub same_supply : get_total_supply h' ≡ get_total_supply h
  pub balances :
      (a : Str) → IsShortAddress a → get_balance a h' ≡ paid from to amount (λ x. get_balance x h) a

credited :
    (addr : Str) (amount : ℕ) (h h' : HostData)
    → credit addr amount h ≡ (ok tt, h')
    → (get_balance addr h + amount < 2 ^ 128)
      × (h' ≡ set_balance addr (get_balance addr h + amount) h)
unfolding credit
credited addr amount h h' e = elim (Bool-cases (ltb (get_balance addr h + amount) u128_mod)) [
  | inr over ↦
      let none_left : checked_add (get_balance addr h) amount ≡ none = ground arith in
      absurd (ground arith)
  | inl fits ↦
      let some_left : checked_add (get_balance addr h) amount ≡ some (get_balance addr h + amount) =
        ground arith in
      let c : credit addr amount h ≡ (ok tt, set_balance addr (get_balance addr h + amount) h) =
        rw (credit, some_left) refl in
      (ground arith, cc)
]

-- The two writes, where both succeed.
pub two_writes :
    (n : ℕ) (from to : Str) (amount : ℕ) (h h' : HostData)
    → IsShortAddress to
    → HasRoom (n + 2) h
    → str_eq from to ≡ false
    → amount ≤ get_balance from h
    → and_then (debit from amount h) (credit to amount) ≡ (ok tt, h')
    → Pays from to amount h h'
      × HasRoom n h'
      × ((o s : Str) → get_allowance o s h' ≡ get_allowance o s h)
unfolding debit credit
two_writes n from to amount h h' short_t room distinct covered e =
    let e1 : checked_sub (get_balance from h) amount ≡ some (get_balance from h - amount) =
      ground arith in
    let h1 = set_balance from (get_balance from h - amount) h in
    let d : debit from amount h ≡ (ok tt, h1) = rw (debit, e1) refl in
    let two : credit to amount h1 ≡ (ok tt, h') = rw⁻¹ e (rw d refl) in
    let one : HasRoom 1 h = omega arith in
    let fits1 : get_balance from h - amount < 2 ^ 128 =
      omega (arith, get_number_fits (bal_key from) h) in
    let room1 : HasRoom (n + 1) h1 =
      set_number-HasRoom (n + 1) (bal_key from) (get_balance from h - amount) h (omega arith) in
    let (fits2, last) = credited to amount h1 h' two in
    let w = get_balance to h1 + amount in
    rw last (
      record {
        covered = covered;
        same_supply =
            set_balance-supply to w h1 (omega (arith, room1))
            ∙ set_balance-supply from (get_balance from h - amount) h one;
        balances = λ a short.
            rw
              (
                get_balance-set_balance a to w h1 short fits2 (omega (arith, room1)),
                get_balance-set_balance to from (get_balance from h - amount) h short_t fits1 one,
                get_balance-set_balance a from (get_balance from h - amount) h short fits1 one,
              )
              (ground (
                arith,
                str_eq_iff a from,
                str_eq_iff a to,
                str_eq_iff from to,
                str_eq_iff to from,
              ));
      },
      set_number-HasRoom n (bal_key to) w h1 room1,
      λ o s.
          get_allowance-set_balance o s to w h1 (omega (arith, room1))
          ∙ get_allowance-set_balance o s from (get_balance from h - amount) h one,
    )

-- A successful transfer, with arguments of at most 1,000 bytes and room for two more keys in this
-- execution, pays the amount in the second argument from the caller to the address in the first:
-- the caller had as much, the supply stays as it is, and so does the balance of every other address
-- of at most 1,000 bytes, which the caller's always is.
pub transfer-Pays :
    (h h' : HostData)
    → HasRoom 2 h
    → HasShortArgs h
    → transfer h ≡ (ok tt, h')
    → (to : Str) × (arg 0 h ≡ some to)
      × IsShortAddress (caller h)
      × Pays (caller h) to (amount_arg 1 h) h h'
unfolding transfer
transfer-Pays h h' room short e = elim (Outcome-cases (check_transfer h)) [
  | inl ((from, to, amount), q) ↦
      let may = check_transfer-MayTransfer h from to amount q in
      let run : and_then (debit from amount h) (credit to amount) ≡ (ok tt, h') =
        rw⁻¹ e (rw (transfer, q) refl) in
      let (pays, room', allowances) =
        two_writes 0 from to amount h h' (short 0 to may.recipient) room may.distinct may.covered
          run in
      (to, may.recipient, caller-IsShortAddress h, rw⁻¹ may.sender (rw⁻¹ may.is_amount pays))
  | inr (inl (x, q)) ↦ absurd (ground arith)
  | inr (inr q) ↦ absurd (ground arith)
]

approved_after :
    (m : Outcome TokenError (Unit {0}) × HostData) (owner spender : Str) (v : ℕ) (h' : HostData)
    → and_then m (λ x. (ok tt, set_allowance owner spender v x)) ≡ (ok tt, h')
    → (x : HostData) × (m ≡ (ok tt, x)) × (h' ≡ set_allowance owner spender v x)
approved_after (ok tt, x) owner spender v h' e = (x, refl, cc)
approved_after (err y, x) owner spender v h' e = absurd (ground arith)
approved_after (panic, x) owner spender v h' e = absurd (ground arith)

-- A successful transfer by a spender, with arguments of at most 1,000 bytes and room for three more
-- keys in this execution, pays the amount in the third argument from the address in the first to
-- that in the second, as a transfer does, and takes it from the allowance that the first gave the
-- caller, which was at least as much.
pub transfer_from-Pays :
    (h h' : HostData)
    → HasRoom 3 h
    → HasShortArgs h
    → transfer_from h ≡ (ok tt, h')
    → (from : Str) × (to : Str) × (arg 0 h ≡ some from)
      × (arg 1 h ≡ some to)
      × Pays from to (amount_arg 2 h) h h'
      × (get_allowance from (caller h) h' + amount_arg 2 h ≡ get_allowance from (caller h) h)
unfolding transfer_from
transfer_from-Pays h h' room short e = elim (Outcome-cases (check_transfer_from h)) [
  | inl ((from, to, amount, spender), q) ↦
      let may = check_transfer_from-MayTransferFrom h from to amount spender q in
      let left = get_allowance from spender h - amount in
      let m = and_then (debit from amount h) (credit to amount) in
      let run : and_then m (λ x. (ok tt, set_allowance from spender left x)) ≡ (ok tt, h') =
        rw⁻¹ e (rw (transfer_from, q) refl) in
      let (x, two, last) = approved_after m from spender left h' run in
      let fits : left < 2 ^ 128 = omega (arith, get_number_fits (allow_key from spender) h) in
      let (pays, room', allowances) =
        two_writes 1 from to amount h x (short 1 to may.recipient) room may.distinct may.covered
          two in
      let same : get_allowance from spender x ≡ get_allowance from spender h =
        allowances from spender in
      let some_left : get_allowance from spender x ≢ 0 =
        omega (arith, same, may.allowed, may.positive) in
      rw⁻¹ (may.sender, may.is_amount)
        (rw last (
          from,
          to,
          may.owner,
          may.recipient,
          record {
            covered = may.covered;
            same_supply = set_allowance-supply from spender left x room' ∙ pays.same_supply;
            balances = λ a short_a.
                get_balance-set_allowance a from spender left x room' ∙ pays.balances a short_a;
          },
          rw (get_allowance-set_allowance from spender left x some_left fits room')
              (omega (arith, may.allowed)),
        ))
  | inr (inl (x, q)) ↦ absurd (ground arith)
  | inr (inr q) ↦ absurd (ground arith)
]
