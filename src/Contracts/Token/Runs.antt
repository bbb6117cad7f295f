-- ===== src/Contracts/Token/Runs.antt =====
-- crates/los-contracts/src/usp01_token.rs: a sequence of calls of the token contract. Each execution
-- starts with what the one before it wrote, no dirty keys, and its own caller and arguments.
use unauthority_core.Base.{◌≤◌, ◌≡◌, refl, Str, List, [], ◌∷◌, arith, inl, inr, ◌⊎◌, str_key}
use unauthority_core.Base.Map.{lookup}
use unauthority_core.Base.Map.Weigh.{weigh}
use unauthority_core.Base.Outcome.{ok, Outcome-cases}
use unauthority_core.Vm.Host.{HostData, host_get_state}
use unauthority_core.Vm.Sdk.{get_str}
use unauthority_core.Contracts.Token.State.{Action, get_number, get_total_supply, is_initialized}
use unauthority_core.Contracts.Token.{
  transfer, transfer_from, approve, burn, wrap_mint, wrap_burn, check_transfer,
}
use unauthority_core.Contracts.Token.Init.{init}
use unauthority_core.Contracts.Token.Guards.{IsUncapped, check_transfer-MayTransfer}
use unauthority_core.Contracts.Token.Store.{HasRoom}
use unauthority_core.Contracts.Token.Outstanding.{outstanding}
use unauthority_core.Contracts.Token.Supply.{
  IsSound, moved, transfer-IsSound, transfer_from-IsSound, approve-IsSound, burn-IsSound,
  wrap_mint-IsSound, wrap_burn-IsSound,
}
use unauthority_core.Contracts.Token.Deployed.{init-IsSound}

-- The exported functions that write.
pub data Function : Type 0 where
  at_init at_transfer at_approve at_transfer_from at_burn at_wrap_mint at_wrap_burn : Function

abbrev pub action : Function → Action (Unit {0})
action at_init = init
action at_transfer = transfer
action at_approve = approve
action at_transfer_from = transfer_from
action at_burn = burn
action at_wrap_mint = wrap_mint
action at_wrap_burn = wrap_burn

pub record TokenCall : Type 0 where
  pub function : Function
  pub caller : Str
  pub args : List Str

abbrev pub enter : TokenCall → HostData → HostData
enter c h = record h { dirty_keys = []; transfers = []; caller = c.caller; args = c.args }

unfoldable pub run : List TokenCall → HostData → HostData
run [] h = h
run (c ∷ calls) h = run calls (action c.function (enter c h)).1

action-IsSound : (f : Function) (h : HostData) → HasRoom 11 h → IsSound h → IsSound (action f h).1
action-IsSound at_init h room = init-IsSound h room
action-IsSound at_transfer h room = transfer-IsSound h (omega arith)
action-IsSound at_approve h room = approve-IsSound h (omega arith)
action-IsSound at_transfer_from h room = transfer_from-IsSound h (omega arith)
action-IsSound at_burn h room = burn-IsSound h (omega arith)
action-IsSound at_wrap_mint h room = wrap_mint-IsSound h (omega arith)
action-IsSound at_wrap_burn h room = wrap_burn-IsSound h (omega arith)

pub enter-IsSound : (c : TokenCall) (h : HostData) → IsSound h → IsSound (enter c h)
unfolding is_initialized get_number get_str host_get_state
enter-IsSound c h s = record { short = s.short; blank = s.blank; backed = s.backed }

pub run-IsSound : (calls : List TokenCall) (h : HostData) → IsSound h → IsSound (run calls h)
unfolding run
run-IsSound [] h s = s
run-IsSound (c ∷ calls) h s =
    run-IsSound calls _ (action-IsSound c.function (enter c h) (omega arith) (enter-IsSound c h s))

pub blank-IsSound : (h : HostData) → h.state ≡ [] → IsSound h
unfolding lookup weigh
blank-IsSound h e = record {
  short = rw e (λ k v q. absurd (ground arith));
  blank = λ f. rw e refl;
  backed = inr (rw e (omega arith));
}

-- After any sequence of calls from an empty store, with any callers and arguments, the balances of
-- all accounts together are at most the recorded total supply, unless the token is wrapped and was
-- deployed without a maximum supply.
pub supply_backs_balances :
    (calls : List TokenCall) (h : HostData)
    → h.state ≡ []
    → IsUncapped (run calls h) ⊎ (outstanding (run calls h) ≤ get_total_supply (run calls h))
supply_backs_balances calls h e = let s = run-IsSound calls h (blank-IsSound h e) in s.backed

enter-IsUncapped : (c : TokenCall) (h : HostData) → IsUncapped (enter c h) → IsUncapped h
unfolding get_number get_str host_get_state
enter-IsUncapped c h free = free

-- A transfer that is called after any sequence of calls from an empty store succeeds or changes
-- nothing in the store, unless the token is wrapped and without a maximum supply: the second write
-- cannot fail after the first.
pub transfer_is_atomic :
    (calls : List TokenCall) (h : HostData) (c : TokenCall)
    → h.state ≡ []
    → ¬ IsUncapped (run calls h)
    → let before = enter c (run calls h) in
      ((transfer before).0 ≡ ok tt) ⊎ ((transfer before).1 ≡ before)
unfolding transfer
transfer_is_atomic calls h c e capped =
    let before = enter c (run calls h) in
    let s = enter-IsSound c (run calls h) (run-IsSound calls h (blank-IsSound h e)) in
    elim (Outcome-cases (check_transfer before)) [
      | inl ((from, to, amount), q) ↦
          let may = check_transfer-MayTransfer before from to amount q in
          let (kept, backed) = moved 0 before from to amount s.short (omega arith) may.covered in
          elim s.backed [
            | inl free ↦ absurd (capped (enter-IsUncapped c (run calls h) free))
            | inr b ↦ inl (rw (transfer, q) (backed b).1)
          ]
      | inr (inl (x, q)) ↦ inr (rw (transfer, q) refl)
      | inr (inr q) ↦ inr (rw (transfer, q) refl)
    ]
