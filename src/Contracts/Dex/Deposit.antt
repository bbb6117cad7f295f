-- ===== src/Contracts/Dex/Deposit.antt =====
-- crates/los-contracts/src/dex_amm.rs, `add_liquidity`: what a deposit does to the numbers of a pool
-- and to the shares in it.
use unauthority_core.Base.{
  ℕ, ◌+◌, ◌*◌, ◌/◌, ◌≤◌, ◌<◌, ◌≡◌, ◌≢◌, refl, sym, ◌^◌, ◌∙◌, Str, codes, str_eq, str_eq_iff, length,
  Bool-cases, some, arith, inl, inr, ltb, if◌then◌else◌, u128,
}
use native.Mathlib.Nat.{mul-le-mul}
use unauthority_core.Base.Outcome.{ok, Outcome-cases}
use unauthority_core.Vm.Host.{HostData}
use unauthority_core.Vm.Sdk.{arg, caller}
use unauthority_core.Contracts.Token.State.{get_number, set_number}
use unauthority_core.Contracts.Token.Store.{HasRoom}
use unauthority_core.Contracts.Dex.Math.{quotient-mul}
use unauthority_core.Contracts.Dex.State.{
  pool_key, lp_key, reserve_a, reserve_b, total_lp, lp_shares, set_pool, DexError,
}
use unauthority_core.Contracts.Dex.Guards.{
  IsAmount, MayAdd, check_add-MayAdd, text_arg-ok, number_arg-ok,
}
use unauthority_core.Contracts.Dex.Pool.{
  IsShortId, IsField, field-written, shares-written, room-written, field-set_shares,
  shares-set_shares,
}
use unauthority_core.Contracts.Dex.Shares.{share_of}
use unauthority_core.Contracts.Dex.{Liquidity, minted_lp, check_add, add_liquidity}

-- No step of the deposit overflows.
pub record FitsDeposit (h : HostData) (id : Str) (a b : ℕ) : Type 0 where
  pub short : IsShortId id
  pub room : HasRoom 4 h
  pub fits_a : a * total_lp id h < 2 ^ 128
  pub fits_b : b * total_lp id h < 2 ^ 128
  pub fits_sum_a : reserve_a id h + a < 2 ^ 128
  pub fits_sum_b : reserve_b id h + b < 2 ^ 128
  pub fits_lp :
      total_lp id h + minted_lp a b (reserve_a id h) (reserve_b id h) (total_lp id h) < 2 ^ 128
  pub part : lp_shares id (caller h) h ≤ total_lp id h

-- What a deposit by `who` of at most `a` and `b` does.
pub record Deposits (id who : Str) (a b lp : ℕ) (h h' : HostData) : Type 0 where
  pub some_lp : total_lp id h ≢ 0
  pub most_a : share_of lp (reserve_a id h) (total_lp id h) ≤ a
  pub most_b : share_of lp (reserve_b id h) (total_lp id h) ≤ b
  pub paid_a : reserve_a id h' ≡ reserve_a id h + share_of lp (reserve_a id h) (total_lp id h)
  pub paid_b : reserve_b id h' ≡ reserve_b id h + share_of lp (reserve_b id h) (total_lp id h)
  pub more_lp : total_lp id h' ≡ total_lp id h + lp
  pub shares :
      (x : Str)
      → length x ≤ 500
      → lp_shares id x h' ≡ (if str_eq x who then lp_shares id x h + lp else lp_shares id x h)

-- The shares for an amount are at most its part of the reserve.
minted-le :
    (a b ra rb t : ℕ)
    → ra ≢ 0
    → rb ≢ 0
    → a * t < 2 ^ 128
    → b * t < 2 ^ 128
    → (minted_lp a b ra rb t * ra ≤ a * t) × (minted_lp a b ra rb t * rb ≤ b * t)
unfolding minted_lp
minted-le a b ra rb t some_a some_b fits_a fits_b =
    let exact_a : u128 (a * t) ≡ a * t = omega arith in
    let exact_b : u128 (b * t) ≡ b * t = omega arith in
    let qa = quotient-mul (a * t) ra (ground arith) in
    let qb = quotient-mul (b * t) rb (ground arith) in
    rw (minted_lp, exact_a, exact_b)
      (elim (Bool-cases (ltb ((a * t) / ra) ((b * t) / rb))) [
        | inl less ↦
            let le : ((a * t) / ra) * rb ≤ ((b * t) / rb) * rb =
              mul-le-mul (ground arith) (omega arith) in
            rw less (qa, omega arith)
        | inr more ↦
            let le : ((b * t) / rb) * ra ≤ ((a * t) / ra) * ra =
              mul-le-mul (ground arith) (omega arith) in
            rw more (omega arith, qb)
      ])

share_at_most : (lp r t n : ℕ) → t ≢ 0 → lp * r ≤ n * t → share_of lp r t ≤ n
share_at_most lp r t n some_t le =
    let below : share_of lp r t * t ≤ lp * r = quotient-mul (lp * r) t (ground arith) in
    grind (arith, below)

-- The three numbers of a pool and then the shares of one account.
module _ (id who : Str) (a b c v : ℕ) (h : HostData) (short : IsShortId id) (room : HasRoom 4 h)
    (fits_a : a < 2 ^ 128) (fits_b : b < 2 ^ 128) (fits_c : c < 2 ^ 128)
    (fits_v : v < 2 ^ 128) where
  pool_room : HasRoom 1 (set_pool id a b c h)
  pool_room =
      room-written id (codes "reserve_a") (codes "reserve_b") (codes "total_lp") a b c h short
        (omega arith) (omega arith) (omega arith) (omega arith) fits_a fits_b fits_c 1 room

  pool_shares : (x : Str) → lp_shares id x (set_pool id a b c h) ≡ lp_shares id x h
  pool_shares =
      shares-written id (codes "reserve_a") (codes "reserve_b") (codes "total_lp") a b c h short
        (omega arith) (omega arith) (omega arith) (omega arith) fits_a fits_b fits_c

  field-added :
      (f : Str)
      → IsField f
      → get_number (pool_key id f) (set_number (lp_key id who) v (set_pool id a b c h)) ≡ (
          if str_eq f (codes "total_lp")
          then c
          else if str_eq f (codes "reserve_b")
          then b
          else if str_eq f (codes "reserve_a")
          then a
          else get_number (pool_key id f) h)
  field-added f field =
      field-set_shares id v (set_pool id a b c h) short pool_room f who
      ∙ field-written id (codes "reserve_a") (codes "reserve_b") (codes "total_lp") a b c h short
          (omega arith) (omega arith) (omega arith) (omega arith) fits_a fits_b fits_c f field

  shares-added :
      (x : Str)
      → length x ≤ 500
      → lp_shares id x (set_number (lp_key id who) v (set_pool id a b c h))
        ≡ (if str_eq x who then v else lp_shares id x h)
  shares-added x short_x =
      shares-set_shares id v (set_pool id a b c h) short pool_room x who short_x fits_v
      ∙ rw (pool_shares x) refl

-- The store after a deposit.
abbrev deposited : Liquidity → HostData → HostData
deposited l h =
    let h1 =
      set_pool l.pool_id (u128 (reserve_a l.pool_id h + l.amount_a))
        (u128 (reserve_b l.pool_id h + l.amount_b)) (u128 (total_lp l.pool_id h + l.lp_tokens)) h in
    set_number (lp_key l.pool_id (caller h))
      (u128 (lp_shares l.pool_id (caller h) h1 + l.lp_tokens)) h1

own_more :
    (id who : Str) (lp : ℕ) (h : HostData) (x : Str)
    → (if str_eq x who then lp_shares id who h + lp else lp_shares id x h)
      ≡ (if str_eq x who then lp_shares id x h + lp else lp_shares id x h)
own_more id who lp h x = elim (Bool-cases (str_eq x who)) [
  | inl same ↦ let e : x ≡ who = (str_eq_iff x who).0 same in rw e refl
  | inr other ↦ rw other refl
]

small_u128 : (n : ℕ) → n < 2 ^ 128 → u128 n ≡ n
small_u128 n fits = omega arith

-- The numbers of a deposit that fits.
record Amounts (l : Liquidity) (h : HostData) (a b : ℕ) : Type 0 where
  most_a : share_of l.lp_tokens (reserve_a l.pool_id h) (total_lp l.pool_id h) ≤ a
  most_b : share_of l.lp_tokens (reserve_b l.pool_id h) (total_lp l.pool_id h) ≤ b
  exact_a : l.amount_a ≡ share_of l.lp_tokens (reserve_a l.pool_id h) (total_lp l.pool_id h)
  exact_b : l.amount_b ≡ share_of l.lp_tokens (reserve_b l.pool_id h) (total_lp l.pool_id h)
  fits_total : total_lp l.pool_id h + l.lp_tokens < 2 ^ 128
  fits_own : lp_shares l.pool_id (caller h) h + l.lp_tokens < 2 ^ 128

amounts :
    (l : Liquidity) (h : HostData) (a b : ℕ)
    → MayAdd h l a b
    → FitsDeposit h l.pool_id a b
    → Amounts l h a b
amounts l h a b may fits =
    let id = l.pool_id in
    let lp = l.lp_tokens in
    let t = total_lp id h in
    let ra = reserve_a id h in
    let rb = reserve_b id h in
    let (le_a, le_b) = minted-le a b ra rb t may.some_a may.some_b fits.fits_a fits.fits_b in
    let lp_a : lp * ra ≤ a * t = rw may.minted le_a in
    let lp_b : lp * rb ≤ b * t = rw may.minted le_b in
    let sum : t + lp < 2 ^ 128 = rw may.minted fits.fits_lp in
    record {
      most_a = share_at_most lp ra t a may.some_lp lp_a;
      most_b = share_at_most lp rb t b may.some_lp lp_b;
      exact_a = ground (arith, may.used_a, lp_a, fits.fits_a);
      exact_b = ground (arith, may.used_b, lp_b, fits.fits_b);
      fits_total = sum;
      fits_own = omega (arith, fits.part, sum);
    }

deposited-Deposits :
    (l : Liquidity) (h : HostData) (a b : ℕ)
    → MayAdd h l a b
    → FitsDeposit h l.pool_id a b
    → Deposits l.pool_id (caller h) a b l.lp_tokens h (deposited l h)
unfolding str_eq
deposited-Deposits l h a b may fits =
    let id = l.pool_id in
    let lp = l.lp_tokens in
    let t = total_lp id h in
    let ra = reserve_a id h in
    let rb = reserve_b id h in
    let own = lp_shares id (caller h) h in
    let n = amounts l h a b may fits in
    let na = ra + share_of lp ra t in
    let nb = rb + share_of lp rb t in
    let fits_na : na < 2 ^ 128 = omega (arith, n.most_a, fits.fits_sum_a) in
    let fits_nb : nb < 2 ^ 128 = omega (arith, n.most_b, fits.fits_sum_b) in
    let who = caller h in
    let at =
      field-added id who na nb (t + lp) (own + lp) h fits.short fits.room fits_na fits_nb
        n.fits_total n.fits_own in
    let shares_at =
      shares-added id who na nb (t + lp) (own + lp) h fits.short fits.room fits_na fits_nb
        n.fits_total n.fits_own in
    let same_own =
      pool_shares id who na nb (t + lp) (own + lp) h fits.short fits.room fits_na fits_nb
        n.fits_total n.fits_own who in
    rw
      (
        n.exact_a,
        n.exact_b,
        small_u128 na fits_na,
        small_u128 nb fits_nb,
        small_u128 (t + lp) n.fits_total,
        same_own,
        small_u128 (own + lp) n.fits_own,
      )
      (record {
        some_lp = may.some_lp;
        most_a = n.most_a;
        most_b = n.most_b;
        paid_a = at (codes "reserve_a") (omega arith);
        paid_b = at (codes "reserve_b") (omega arith);
        more_lp = at (codes "total_lp") (omega arith);
        shares = λ x short_x. shares_at x short_x ∙ own_more id who lp h x;
      })

deposited_as :
    (l : Liquidity) (h : HostData) (a b lp : ℕ)
    → lp ≡ l.lp_tokens
    → MayAdd h l a b
    → FitsDeposit h l.pool_id a b
    → Deposits l.pool_id (caller h) a b lp h (deposited l h)
deposited_as l h a b lp e may fits = rw e (deposited-Deposits l h a b may fits)

-- A successful deposit, of which no step overflows, by a caller whose shares are part of the total,
-- in a pool with an identifier of at most 512 bytes and with room for four more keys: there were
-- shares before, the shares minted are the smaller of those that either amount stands for, both
-- reserves grow by the shares' part of them, rounded down, which is at most the amount offered, the
-- total grows by the shares, and of the addresses of at most 500 bytes the caller's shares grow by
-- as many and no other's change.
pub deposit_is_proportional :
    (h h' : HostData) (id : Str) (a b : ℕ)
    → arg 0 h ≡ some id
    → IsAmount 1 h a
    → IsAmount 2 h b
    → FitsDeposit h id a b
    → add_liquidity h ≡ (ok tt, h')
    → Deposits id
        (caller h)
        a
        b
        (minted_lp a b (reserve_a id h) (reserve_b id h) (total_lp id h))
        h
        h'
unfolding add_liquidity
deposit_is_proportional h h' id a b given (s, at, is_a) (z, bt, is_b) fits e =
    elim (Outcome-cases (check_add h)) [
      | inl (l, q) ↦
          let (a1, b1, may) = check_add-MayAdd h l q in
          let same_id : id ≡ l.pool_id =
            ground (arith, text_arg-ok 0 DexError.no_pool_id h l.pool_id may.id_given) in
          let (s', at', is_a1) = number_arg-ok 1 DexError.no_amount_a h a1 may.a_given in
          let (z', bt', is_b1) = number_arg-ok 2 DexError.no_amount_b h b1 may.b_given in
          let same_s : s ≡ s' = ground arith in
          let same_z : z ≡ z' = ground arith in
          let same_a : a ≡ a1 = cc in
          let same_b : b ≡ b1 = cc in
          let done : add_liquidity h ≡ (ok tt, deposited l h) = rw (add_liquidity, q) refl in
          let last : h' ≡ deposited l h = cc in
          let fits' : FitsDeposit h l.pool_id a1 b1 = rw⁻¹ (same_id, same_a, same_b) fits in
          rw (last, same_id, same_a, same_b) (deposited_as l h a1 b1 _ (sym may.minted) may fits')
      | inr (inl (x, q)) ↦ absurd (ground arith)
      | inr (inr q) ↦ absurd (ground arith)
    ]
