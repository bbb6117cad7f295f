-- ===== src/Contracts/Token/Supply.antt =====
-- crates/los-contracts/src/usp01_token.rs: the balances of a token never add up to more than its
-- supply. One lemma for each exported function that writes.
use unauthority_core.Base.{
  ℕ, ◌+◌, ◌-◌, ◌≤◌, ◌<◌, ◌≡◌, refl, ◌^◌, ◌∙◌, Str, codes, Bool-cases, true, false, arith, inl, inr,
  ◌⊎◌, saturating_add, ◌==◌,
}
use unauthority_core.Base.Outcome.{Outcome, ok, err, panic, Outcome-cases}
use unauthority_core.Vm.Host.{HostData}
use unauthority_core.Contracts.Token.State.{
  TokenError, and_then, get_balance, set_balance, get_allowance, set_allowance, get_total_supply,
  set_total_supply, is_initialized, supply_key,
}
use unauthority_core.Contracts.Token.{
  debit, credit, transfer, check_transfer, transfer_from, check_transfer_from, approve,
  check_approve, burn, check_burn, wrap_mint, check_wrap_mint, wrap_burn, check_wrap_burn,
  max_supply_of, lower_supply,
}
use unauthority_core.Contracts.Token.Guards.{
  IsUncapped, check_transfer-MayTransfer, check_transfer_from-MayTransferFrom, check_burn-covered,
  check_approve-initialized, check_wrap_burn-covered, check_wrap_mint-fits,
}
use unauthority_core.Contracts.Token.Store.{HasRoom, HasShortValues}
use unauthority_core.Contracts.Token.Outstanding.{outstanding, balance-le-outstanding}
use unauthority_core.Contracts.Token.Writes.{
  Kept, Kept-trans, less_room, debit_lem, credit_lem, credit-Kept, set_total_supply-Kept,
  set_allowance-Kept, set_total_supply_lem, set_total_supply-outstanding, set_allowance-supply,
  set_allowance-outstanding, get_number_fits,
}

-- Every value can be read, a token that is not initialized has no balances, and the balances are
-- backed by the supply, unless the token is wrapped and has no cap.
pub record IsSound (h : HostData) : Type 0 where
  pub short : HasShortValues h
  pub blank : is_initialized h ≡ false → outstanding h ≡ 0
  pub backed : IsUncapped h ⊎ (outstanding h ≤ get_total_supply h)

-- A function that keeps the metadata of an initialized token keeps it sound if it keeps it backed.
Kept-IsSound :
    (n : ℕ) (h h' : HostData)
    → IsSound h
    → is_initialized h ≡ true
    → Kept n h h'
    → (outstanding h ≤ get_total_supply h → outstanding h' ≤ get_total_supply h')
    → IsSound h'
Kept-IsSound n h h' s i k f = record {
  short = k.short;
  blank = λ e. absurd (ground (arith, k.same_init));
  backed = elim s.backed [
    | inl (w, c) ↦ inl (k.same_wrapped ∙ w, k.same_cap ∙ c)
    | inr b ↦ inr (f b)
  ];
}

-- The two writes of a transfer, from an account that covers it to another one.
pub moved :
    (n : ℕ) (h : HostData) (from to : Str) (amount : ℕ)
    → HasShortValues h
    → HasRoom (n + 2) h
    → amount ≤ get_balance from h
    → let h' = (and_then (debit from amount h) (credit to amount)).1 in
      Kept n h h'
      × (outstanding h ≤ get_total_supply h
          → (outstanding h' ≤ get_total_supply h')
            × ((and_then (debit from amount h) (credit to amount)).0 ≡ ok tt))
moved n h from to amount short room covered =
    let (e, sum, supply, kept) = debit_lem (n + 1) from amount h covered (omega arith) short in
    let h1 = set_balance from (get_balance from h - amount) h in
    let e' : and_then (debit from amount h) (credit to amount) ≡ credit to amount h1 = rw e refl in
    rw e' (
      Kept-trans (n + 1) n _ _ _ kept (credit-Kept n to amount h1 kept.room kept.short),
      λ backed.
          let fits : get_balance to h1 + amount < 2 ^ 128 =
            omega (arith, balance-le-outstanding to h1 kept.short, get_number_fits supply_key h) in
          let (e2, sum2, supply2, kept2) = credit_lem n to amount h1 fits kept.room kept.short in
          rw e2 (omega arith, refl),
    )

-- The write of a lower supply, after a debit by as much.
burned :
    (n : ℕ) (h : HostData) (from : Str) (amount : ℕ)
    → HasShortValues h
    → HasRoom (n + 2) h
    → amount ≤ get_balance from h
    → let h' = (and_then (debit from amount h) (lower_supply amount)).1 in
      Kept n h h' × (outstanding h ≤ get_total_supply h → outstanding h' ≤ get_total_supply h')
burned n h from amount short room covered =
    let (e, sum, supply, kept) = debit_lem (n + 1) from amount h covered (omega arith) short in
    let h1 = set_balance from (get_balance from h - amount) h in
    let one : HasRoom 1 h1 = omega (arith, kept.room) in
    let v = get_total_supply h1 - amount in
    let e' : and_then (debit from amount h) (lower_supply amount) ≡ (ok tt, set_total_supply v h1) =
      rw e refl in
    rw e' (
      Kept-trans (n + 1) n _ _ _ kept (set_total_supply-Kept n v h1 kept.room kept.short),
      λ backed.
          rw
            (
              set_total_supply_lem v h1 (omega (arith, get_number_fits supply_key h1)) one,
              set_total_supply-outstanding v h1 one,
            )
            (omega arith),
    )

pub transfer-IsSound : (h : HostData) → HasRoom 2 h → IsSound h → IsSound (transfer h).1
unfolding transfer
transfer-IsSound h room s = elim (Outcome-cases (check_transfer h)) [
  | inl ((from, to, amount), e) ↦
      let may = check_transfer-MayTransfer h from to amount e in
      let (kept, backed) = moved 0 h from to amount s.short room may.covered in
      rw (transfer, e) (Kept-IsSound 0 h _ s may.initialized kept (λ b. (backed b).0))
  | inr (inl (x, e)) ↦ rw (transfer, e) s
  | inr (inr e) ↦ rw (transfer, e) s
]

pub burn-IsSound : (h : HostData) → HasRoom 2 h → IsSound h → IsSound (burn h).1
unfolding burn
burn-IsSound h room s = elim (Outcome-cases (check_burn h)) [
  | inl ((from, amount), e) ↦
      let (initialized, sender, positive, covered) = check_burn-covered h from amount e in
      let (kept, backed) = burned 0 h from amount s.short room covered in
      rw (burn, e) (Kept-IsSound 0 h _ s initialized kept backed)
  | inr (inl (x, e)) ↦ rw (burn, e) s
  | inr (inr e) ↦ rw (burn, e) s
]

pub wrap_burn-IsSound : (h : HostData) → HasRoom 2 h → IsSound h → IsSound (wrap_burn h).1
unfolding wrap_burn
wrap_burn-IsSound h room s = elim (Outcome-cases (check_wrap_burn h)) [
  | inl ((from, amount), e) ↦
      let (initialized, sender, positive, covered) = check_wrap_burn-covered h from amount e in
      let (kept, backed) = burned 0 h from amount s.short room covered in
      rw (wrap_burn, e) (Kept-IsSound 0 h _ s initialized kept backed)
  | inr (inl (x, e)) ↦ rw (wrap_burn, e) s
  | inr (inr e) ↦ rw (wrap_burn, e) s
]

approved :
    (n : ℕ) (h : HostData) (owner spender : Str) (v : ℕ)
    → HasShortValues h
    → HasRoom (n + 1) h
    → let h' = set_allowance owner spender v h in
      Kept n h h' × (outstanding h ≤ get_total_supply h → outstanding h' ≤ get_total_supply h')
approved n h owner spender v short room = (
  set_allowance-Kept n owner spender v h room short,
  λ backed.
      rw
        (
          set_allowance-outstanding owner spender v h (omega arith),
          set_allowance-supply owner spender v h (omega arith),
        )
        backed,
)

pub approve-IsSound : (h : HostData) → HasRoom 1 h → IsSound h → IsSound (approve h).1
unfolding approve
approve-IsSound h room s = elim (Outcome-cases (check_approve h)) [
  | inl ((owner, spender, amount), e) ↦
      let (initialized, sender, is_arg) = check_approve-initialized h owner spender amount e in
      let (kept, backed) = approved 0 h owner spender amount s.short room in
      rw (approve, e) (Kept-IsSound 0 h _ s initialized kept backed)
  | inr (inl (x, e)) ↦ rw (approve, e) s
  | inr (inr e) ↦ rw (approve, e) s
]

-- The write of an allowance after a transfer, which may have failed.
then_approved :
    (h : HostData) (m : Outcome TokenError (Unit {0}) × HostData) (owner spender : Str) (v : ℕ)
    → Kept 1 h m.1
    → (outstanding h ≤ get_total_supply h → outstanding m.1 ≤ get_total_supply m.1)
    → let h' = (and_then m (λ x. (ok tt, set_allowance owner spender v x))).1 in
      Kept 0 h h' × (outstanding h ≤ get_total_supply h → outstanding h' ≤ get_total_supply h')
then_approved h (ok u, x) owner spender v kept backed =
    let (kept', backed') = approved 0 x owner spender v kept.short kept.room in
    (Kept-trans 1 0 _ _ _ kept kept', λ b. backed' (backed b))
then_approved h (err e, x) owner spender v kept backed = (less_room kept, backed)
then_approved h (panic, x) owner spender v kept backed = (less_room kept, backed)

pub transfer_from-IsSound : (h : HostData) → HasRoom 3 h → IsSound h → IsSound (transfer_from h).1
unfolding transfer_from
transfer_from-IsSound h room s = elim (Outcome-cases (check_transfer_from h)) [
  | inl ((from, to, amount, spender), e) ↦
      let may = check_transfer_from-MayTransferFrom h from to amount spender e in
      let (kept, backed) = moved 1 h from to amount s.short room may.covered in
      let (kept', backed') =
        then_approved h _ from spender (get_allowance from spender h - amount) kept
          (λ b. (backed b).0) in
      rw (transfer_from, e) (Kept-IsSound 0 h _ s may.initialized kept' backed')
  | inr (inl (x, e)) ↦ rw (transfer_from, e) s
  | inr (inr e) ↦ rw (transfer_from, e) s
]

-- The write of a higher supply after a credit, which may have failed.
then_raised :
    (h : HostData) (m : Outcome TokenError (Unit {0}) × HostData) (v : ℕ)
    → Kept 1 h m.1
    → Kept 0 h (and_then m (λ x. (ok tt, set_total_supply v x))).1
then_raised h (ok u, x) v kept =
    Kept-trans 1 0 _ _ _ kept (set_total_supply-Kept 0 v x kept.room kept.short)
then_raised h (err e, x) v kept = less_room kept
then_raised h (panic, x) v kept = less_room kept

minted :
    (h : HostData) (to : Str) (amount : ℕ)
    → HasShortValues h
    → HasRoom 2 h
    → get_total_supply h + amount < 2 ^ 128
    → outstanding h ≤ get_total_supply h
    → let h' =
        (and_then
          (credit to amount h)
          (λ x. (ok tt, set_total_supply (saturating_add (get_total_supply h) amount) x))).1 in
      outstanding h' ≤ get_total_supply h'
minted h to amount short room below backed =
    let fits : get_balance to h + amount < 2 ^ 128 =
      omega (arith, balance-le-outstanding to h short) in
    let (e, sum, supply, kept) = credit_lem 1 to amount h fits room short in
    let h1 = set_balance to (get_balance to h + amount) h in
    let one : HasRoom 1 h1 = kept.room in
    let exact : saturating_add (get_total_supply h) amount ≡ get_total_supply h + amount =
      ground arith in
    rw
      (
        e,
        exact,
        set_total_supply_lem (get_total_supply h + amount) h1 below one,
        set_total_supply-outstanding (get_total_supply h + amount) h1 one,
      )
      (omega arith)

pub wrap_mint-IsSound : (h : HostData) → HasRoom 2 h → IsSound h → IsSound (wrap_mint h).1
unfolding wrap_mint
wrap_mint-IsSound h room s = elim (Outcome-cases (check_wrap_mint h)) [
  | inl ((to, amount), e) ↦
      let (initialized, wrapped, fits) = check_wrap_mint-fits h to amount e in
      let kept =
        then_raised h (credit to amount h) (saturating_add (get_total_supply h) amount)
          (credit-Kept 1 to amount h room s.short) in
      rw (wrap_mint, e)
        (record {
          short = kept.short;
          blank = λ b. absurd (ground (arith, kept.same_init));
          backed = elim (Bool-cases (max_supply_of h == 0)) [
            | inl free ↦ inl (kept.same_wrapped ∙ wrapped, kept.same_cap ∙ ground arith)
            | inr capped ↦
                let below : get_total_supply h + amount ≤ max_supply_of h = fits (ground arith) in
                elim s.backed [
                  | inl (w, c) ↦ absurd (ground arith)
                  | inr b ↦ inr (
                      minted h to amount s.short room
                        (omega (arith, get_number_fits (codes "usp01:max_supply") h)) b)
                ]
          ];
        })
  | inr (inl (x, e)) ↦ rw (wrap_mint, e) s
  | inr (inr e) ↦ rw (wrap_mint, e) s
]
