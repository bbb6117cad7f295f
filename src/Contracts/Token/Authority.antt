-- ===== src/Contracts/Token/Authority.antt =====
-- crates/los-contracts/src/usp01_token.rs: who can lower a balance.
use unauthority_core.Base.{
  ℕ, ◌+◌, ◌-◌, ◌≤◌, ◌<◌, ◌≡◌, refl, ◌∙◌, Str, str_eq, str_eq_iff, Bool-cases, some, List, [], arith,
  inl, inr, ◌⊎◌, saturating_add,
}
use unauthority_core.Base.Outcome.{ok, Outcome-cases}
use unauthority_core.Vm.Host.{HostData}
use unauthority_core.Vm.Sdk.{caller, arg}
use unauthority_core.Contracts.Token.State.{
  and_then, get_balance, get_allowance, set_allowance, get_total_supply, set_total_supply,
}
use unauthority_core.Contracts.Token.{
  debit, credit, lower_supply, check_transfer, transfer, check_transfer_from, transfer_from,
  check_approve, approve, check_burn, burn, check_wrap_burn, wrap_burn, check_wrap_mint, wrap_mint,
}
use unauthority_core.Contracts.Token.Init.{check_init, init}
use unauthority_core.Contracts.Token.Guards.{
  check_transfer-MayTransfer, check_transfer_from-MayTransferFrom, check_burn-covered,
  check_wrap_burn-covered,
}
use unauthority_core.Contracts.Token.Store.{HasRoom}
use unauthority_core.Contracts.Token.Outstanding.{balance-le-outstanding}
use unauthority_core.Contracts.Token.Supply.{IsSound}
use unauthority_core.Contracts.Token.Deployed.{check_init-fresh}
use unauthority_core.Contracts.Token.Balances.{IsShortAddress}
use unauthority_core.Contracts.Token.Runs.{
  Function, action, TokenCall, enter, run, run-IsSound, enter-IsSound, blank-IsSound, at_init,
  at_transfer, at_approve, at_transfer_from, at_burn, at_wrap_mint, at_wrap_burn,
}
use unauthority_core.Contracts.Token.Falls.{
  cost, FallsBy, credit-FallsBy, debit-FallsBy, then_FallsBy, allowance-FallsBy, supply-FallsBy,
}

-- Who may lower the balance of an account: its owner, or one to whom it gave an allowance of as much.
abbrev pub MayLower : Function → HostData → HostData → Str → Type 0
MayLower f h h' a =
    (a ≡ caller h)
    ⊎ ((f ≡ at_transfer_from)
        × (arg 0 h ≡ some a)
        × (get_balance a h ≤ get_balance a h' + get_allowance a (caller h) h))

-- Every account that has less afterwards was lowered by one who may.
abbrev IsAuthorised : Function → HostData → Type 0
IsAuthorised f h =
    (a : Str)
    → IsShortAddress a
    → get_balance a (action f h).1 < get_balance a h
    → MayLower f h (action f h).1 a

-- The caller pays.
caller_pays :
    (f : Function) (h h' : HostData) (from : Str) (amount : ℕ)
    → from ≡ caller h
    → FallsBy 0 (cost from amount) h h'
    → (a : Str) → IsShortAddress a
    → get_balance a h' < get_balance a h
    → MayLower f h h' a
caller_pays f h h' from amount sender k a short less = elim (Bool-cases (str_eq a from)) [
  | inl same ↦ inl ((str_eq_iff a from).0 same ∙ sender)
  | inr other ↦ absurd (ground (arith, k.falls a short))
]

transfer-IsAuthorised : (h : HostData) → HasRoom 2 h → IsAuthorised at_transfer h
unfolding transfer
transfer-IsAuthorised h room = elim (Outcome-cases (check_transfer h)) [
  | inl ((from, to, amount), q) ↦
      let may = check_transfer-MayTransfer h from to amount q in
      let (done, k) = debit-FallsBy 1 from amount h may.covered room in
      rw (transfer, q)
        (caller_pays at_transfer h _ from amount may.sender (
          then_FallsBy 0 1 (cost from amount) h (debit from amount h) (credit to amount) k
            (λ x r. credit-FallsBy 0 to amount x r)))
  | inr (inl (x, q)) ↦ rw (transfer, q) (λ a short less. absurd (omega arith))
  | inr (inr q) ↦ rw (transfer, q) (λ a short less. absurd (omega arith))
]

caller_burns :
    (f : Function) (h : HostData) (from : Str) (amount : ℕ)
    → from ≡ caller h
    → amount ≤ get_balance from h
    → HasRoom 2 h
    → let h' = (and_then (debit from amount h) (lower_supply amount)).1 in
      (a : Str) → IsShortAddress a → get_balance a h' < get_balance a h → MayLower f h h' a
caller_burns f h from amount sender covered room =
    let (done, k) = debit-FallsBy 1 from amount h covered room in
    caller_pays f h _ from amount sender (
      then_FallsBy 0 1 (cost from amount) h (debit from amount h) (lower_supply amount) k
        (λ x r. supply-FallsBy (get_total_supply x - amount) x r))

burn-IsAuthorised : (h : HostData) → HasRoom 2 h → IsAuthorised at_burn h
unfolding burn
burn-IsAuthorised h room = elim (Outcome-cases (check_burn h)) [
  | inl ((from, amount), q) ↦
      let (initialized, sender, positive, covered) = check_burn-covered h from amount q in
      rw (burn, q) (caller_burns at_burn h from amount sender covered room)
  | inr (inl (x, q)) ↦ rw (burn, q) (λ a short less. absurd (omega arith))
  | inr (inr q) ↦ rw (burn, q) (λ a short less. absurd (omega arith))
]

wrap_burn-IsAuthorised : (h : HostData) → HasRoom 2 h → IsAuthorised at_wrap_burn h
unfolding wrap_burn
wrap_burn-IsAuthorised h room = elim (Outcome-cases (check_wrap_burn h)) [
  | inl ((from, amount), q) ↦
      let (initialized, sender, positive, covered) = check_wrap_burn-covered h from amount q in
      rw (wrap_burn, q) (caller_burns at_wrap_burn h from amount sender covered room)
  | inr (inl (x, q)) ↦ rw (wrap_burn, q) (λ a short less. absurd (omega arith))
  | inr (inr q) ↦ rw (wrap_burn, q) (λ a short less. absurd (omega arith))
]

transfer_from-IsAuthorised : (h : HostData) → HasRoom 3 h → IsAuthorised at_transfer_from h
unfolding transfer_from
transfer_from-IsAuthorised h room = elim (Outcome-cases (check_transfer_from h)) [
  | inl ((from, to, amount, spender), q) ↦
      let may = check_transfer_from-MayTransferFrom h from to amount spender q in
      let (done, k) = debit-FallsBy 2 from amount h may.covered room in
      let two =
        then_FallsBy 1 1 (cost from amount) h (debit from amount h) (credit to amount) k
          (λ x r. credit-FallsBy 1 to amount x r) in
      let three =
        then_FallsBy 0 1 (cost from amount) h (and_then (debit from amount h) (credit to amount))
          (λ x. (ok tt, set_allowance from spender (get_allowance from spender h - amount) x)) two
          (λ x r. allowance-FallsBy from spender (get_allowance from spender h - amount) x r) in
      rw (transfer_from, q)
        (λ a short less. elim (Bool-cases (str_eq a from)) [
          | inl same ↦
              let same' : a ≡ from = (str_eq_iff a from).0 same in
              let allowed : amount ≤ get_allowance a (caller h) h =
                rw same' (rw⁻¹ may.sender may.allowed) in
              inr (refl, rw same' may.owner, ground (arith, three.falls a short))
          | inr other ↦ absurd (ground (arith, three.falls a short))
        ])
  | inr (inl (x, q)) ↦ rw (transfer_from, q) (λ a short less. absurd (omega arith))
  | inr (inr q) ↦ rw (transfer_from, q) (λ a short less. absurd (omega arith))
]

approve-IsAuthorised : (h : HostData) → HasRoom 1 h → IsAuthorised at_approve h
unfolding approve
approve-IsAuthorised h room = elim (Outcome-cases (check_approve h)) [
  | inl ((owner, spender, amount), q) ↦
      let k = allowance-FallsBy owner spender amount h room in
      rw (approve, q) (λ a short less. absurd (omega (arith, k.falls a short)))
  | inr (inl (x, q)) ↦ rw (approve, q) (λ a short less. absurd (omega arith))
  | inr (inr q) ↦ rw (approve, q) (λ a short less. absurd (omega arith))
]

wrap_mint-IsAuthorised : (h : HostData) → HasRoom 2 h → IsAuthorised at_wrap_mint h
unfolding wrap_mint
wrap_mint-IsAuthorised h room = elim (Outcome-cases (check_wrap_mint h)) [
  | inl ((to, amount), q) ↦
      let k =
        then_FallsBy 0 1 (λ a. 0) h (credit to amount h)
          (λ x. (ok tt, set_total_supply (saturating_add (get_total_supply h) amount) x))
          (credit-FallsBy 1 to amount h room)
          (λ x r. supply-FallsBy (saturating_add (get_total_supply h) amount) x r) in
      rw (wrap_mint, q) (λ a short less. absurd (omega (arith, k.falls a short)))
  | inr (inl (x, q)) ↦ rw (wrap_mint, q) (λ a short less. absurd (omega arith))
  | inr (inr q) ↦ rw (wrap_mint, q) (λ a short less. absurd (omega arith))
]

init-IsAuthorised : (h : HostData) → IsSound h → IsAuthorised at_init h
unfolding init
init-IsAuthorised h s = elim (Outcome-cases (check_init h)) [
  | inl (m, q) ↦
      let (fresh, is_arg) = check_init-fresh h m q in
      λ a short less. absurd (omega (arith, s.blank fresh, balance-le-outstanding a h s.short))
  | inr (inl (x, q)) ↦ rw (init, q) (λ a short less. absurd (omega arith))
  | inr (inr q) ↦ rw (init, q) (λ a short less. absurd (omega arith))
]

action-IsAuthorised : (f : Function) (h : HostData) → HasRoom 3 h → IsSound h → IsAuthorised f h
action-IsAuthorised at_init h room s = init-IsAuthorised h s
action-IsAuthorised at_transfer h room s = transfer-IsAuthorised h (omega arith)
action-IsAuthorised at_approve h room s = approve-IsAuthorised h (omega arith)
action-IsAuthorised at_transfer_from h room s = transfer_from-IsAuthorised h room
action-IsAuthorised at_burn h room s = burn-IsAuthorised h (omega arith)
action-IsAuthorised at_wrap_mint h room s = wrap_mint-IsAuthorised h (omega arith)
action-IsAuthorised at_wrap_burn h room s = wrap_burn-IsAuthorised h (omega arith)

-- Whatever function of the token is called after any sequence of calls from an empty store, and
-- whether it succeeds or fails: an address of at most 1,000 bytes whose balance is lower afterwards
-- is the caller's own, or the call is `transfer_from` for that address and the balance fell by at
-- most the allowance that the address had given the caller.
pub debits_are_authorised :
    (calls : List TokenCall) (h : HostData) (c : TokenCall) (a : Str)
    → h.state ≡ []
    → let before = enter c (run calls h) in
      let after = (action c.function before).1 in
      IsShortAddress a
      → get_balance a after < get_balance a before
      → MayLower c.function before after a
debits_are_authorised calls h c a e short less =
    let before = enter c (run calls h) in
    let s = enter-IsSound c (run calls h) (run-IsSound calls h (blank-IsSound h e)) in
    action-IsAuthorised c.function before (omega arith) s a short less
