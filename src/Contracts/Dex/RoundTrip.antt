-- ===== src/Contracts/Dex/RoundTrip.antt =====
-- crates/los-contracts/src/dex_amm.rs: a deposit and the withdrawal of its shares in a later call.
use unauthority_core.Base.{ℕ, ◌+◌, ◌*◌, ◌≤◌, ◌≡◌, ◌≢◌, Str, List, [], some, arith}
use native.Mathlib.Nat.{mul-le-mul, le-div_iff_mul-le, le_of_mul-le-mul_right}
use unauthority_core.Base.Outcome.{ok}
use unauthority_core.Vm.Host.{HostData, host_get_state}
use unauthority_core.Vm.Sdk.{arg, get_str}
use unauthority_core.Contracts.Token.State.{get_number}
use unauthority_core.Contracts.Dex.State.{reserve_a, reserve_b, total_lp}
use unauthority_core.Contracts.Dex.Guards.{IsAmount}
use unauthority_core.Contracts.Dex.Math.{quotient-mul}
use unauthority_core.Contracts.Dex.Shares.{share_of}
use unauthority_core.Contracts.Dex.Withdraw.{FitsWithdrawal, withdrawal_is_proportional}
use unauthority_core.Contracts.Dex.Deposit.{FitsDeposit, deposit_is_proportional}
use unauthority_core.Contracts.Dex.{minted_lp, add_liquidity, remove_liquidity}

-- The next call of the same contract: nothing is dirty, and it has its own caller and arguments.
abbrev pub next_call : Str → List Str → HostData → HostData
next_call who args h = record h { dirty_keys = []; transfers = []; caller = who; args = args }

products : (lp r p t : ℕ) → p * t ≤ lp * r → (lp * (r + p)) * t ≤ (lp * r) * (t + lp)
products lp r p t below =
    let more : lp * (p * t) ≤ lp * (lp * r) = mul-le-mul (omega arith) below in grind (arith, more)

-- The part of the shares after a deposit is at most what was paid for them.
share_after_deposit :
    (lp r t : ℕ) → t ≢ 0 → let p = share_of lp r t in share_of lp (r + p) (t + lp) ≤ p
share_after_deposit lp r t some_t =
    let p = share_of lp r t in
    let q = share_of lp (r + p) (t + lp) in
    let below_p : p * t ≤ lp * r = quotient-mul (lp * r) t (ground arith) in
    let below_q : q * (t + lp) ≤ lp * (r + p) =
      quotient-mul (lp * (r + p)) (t + lp) (ground arith) in
    let scaled : (q * (t + lp)) * t ≤ (lp * (r + p)) * t = mul-le-mul below_q (omega arith) in
    let whole : (q * t) * (t + lp) ≤ (lp * r) * (t + lp) =
      grind (arith, scaled, products lp r p t below_p) in
    let fits : q * t ≤ lp * r = le_of_mul-le-mul_right whole (ground arith) in
    (le-div_iff_mul-le {k = t} {x = q} {y = lp * r} (ground arith)).1 fits

-- After a successful deposit, and a successful withdrawal of as many shares as it minted, by
-- anybody, in the next call: both reserves are at least what they were before the deposit, and the
-- total of the shares is what it was. It is assumed of both calls that no step overflows and that
-- there is room for four more keys, that the identifier has at most 512 bytes, that the caller's
-- shares are part of the total before the deposit, that the shares withdrawn are part of the total,
-- and that the store lists no key twice before the withdrawal.
pub deposit_and_withdrawal_keep_reserves :
    (h h1 h2 : HostData) (id : Str) (a b : ℕ) (who : Str) (args : List Str)
    → arg 0 h ≡ some id
    → IsAmount 1 h a
    → IsAmount 2 h b
    → FitsDeposit h id a b
    → add_liquidity h ≡ (ok tt, h1)
    → let lp = minted_lp a b (reserve_a id h) (reserve_b id h) (total_lp id h) in
      let again = next_call who args h1 in
      arg 0 again ≡ some id
      → IsAmount 1 again lp
      → FitsWithdrawal again id lp
      → remove_liquidity again ≡ (ok tt, h2)
      → (reserve_a id h ≤ reserve_a id h2)
        × (reserve_b id h ≤ reserve_b id h2)
        × (total_lp id h2 ≡ total_lp id h)
unfolding get_number get_str host_get_state
deposit_and_withdrawal_keep_reserves h h1 h2 id a b who args given is_a is_b fits e given' is_lp
      fits' e' =
    let lp = minted_lp a b (reserve_a id h) (reserve_b id h) (total_lp id h) in
    let d = deposit_is_proportional h h1 id a b given is_a is_b fits e in
    let w = withdrawal_is_proportional (next_call who args h1) h2 id lp given' is_lp fits' e' in
    let t = total_lp id h in
    let ra = reserve_a id h in
    let rb = reserve_b id h in
    let out_a : share_of lp (reserve_a id h1) (total_lp id h1) ≤ share_of lp ra t =
      rw (d.paid_a, d.more_lp) (share_after_deposit lp ra t d.some_lp) in
    let out_b : share_of lp (reserve_b id h1) (total_lp id h1) ≤ share_of lp rb t =
      rw (d.paid_b, d.more_lp) (share_after_deposit lp rb t d.some_lp) in
    (
      omega (arith, out_a, w.paid_a, d.paid_a),
      omega (arith, out_b, w.paid_b, d.paid_b),
      omega (arith, w.less_lp, d.more_lp),
    )
