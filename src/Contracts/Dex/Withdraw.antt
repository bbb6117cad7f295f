-- ===== src/Contracts/Dex/Withdraw.antt =====
-- crates/los-contracts/src/dex_amm.rs, `remove_liquidity`: what a withdrawal does to the numbers of a
-- pool and to the shares in it.
use unauthority_core.Base.{
  ℕ, ◌+◌, ◌-◌, ◌*◌, ◌≤◌, ◌<◌, ◌≡◌, refl, ◌^◌, ◌∙◌, Str, codes, str_eq, str_eq_iff, str_key, length,
  Bool-cases, some, arith, inl, inr, if◌then◌else◌,
}
use unauthority_core.Base.Map.{HasDistinctKeys}
use unauthority_core.Base.Outcome.{ok, Outcome-cases}
use unauthority_core.Vm.Host.{HostData}
use unauthority_core.Vm.Sdk.{arg, caller}
use unauthority_core.Contracts.Token.State.{get_number}
use unauthority_core.Contracts.Token.Store.{HasRoom}
use unauthority_core.Contracts.Token.Writes.{get_number_fits}
use unauthority_core.Contracts.Dex.Math.{wrapping_sub}
use unauthority_core.Contracts.Dex.State.{
  pool_key, lp_key, reserve_a, reserve_b, total_lp, lp_shares, set_pool, DexError,
}
use unauthority_core.Contracts.Dex.Guards.{
  IsAmount, MayRemove, check_remove-MayRemove, text_arg-ok, number_arg-ok,
}
use unauthority_core.Contracts.Dex.Pool.{
  IsShortId, IsField, field-written, shares-written, room-written, written-HasDistinctKeys,
}
use unauthority_core.Contracts.Dex.Shares.{
  share_of, share_within, withdrawal_fair, shares-set_shares_or_del, field-set_shares_or_del,
}
use unauthority_core.Contracts.Dex.{Liquidity, check_remove, remove_liquidity, set_shares}

-- No step of the withdrawal overflows, and the shares are part of the total.
pub record FitsWithdrawal (h : HostData) (id : Str) (lp : ℕ) : Type 0 where
  pub short : IsShortId id
  pub room : HasRoom 4 h
  pub distinct : HasDistinctKeys h.state
  pub fits_a : lp * reserve_a id h < 2 ^ 128
  pub fits_b : lp * reserve_b id h < 2 ^ 128
  pub part : lp ≤ total_lp id h

-- What a withdrawal of `lp` shares by `who` does.
pub record Withdraws (id who : Str) (lp : ℕ) (h h' : HostData) : Type 0 where
  pub owned : lp ≤ lp_shares id who h
  pub paid_a : reserve_a id h' + share_of lp (reserve_a id h) (total_lp id h) ≡ reserve_a id h
  pub paid_b : reserve_b id h' + share_of lp (reserve_b id h) (total_lp id h) ≡ reserve_b id h
  pub less_lp : total_lp id h' + lp ≡ total_lp id h
  pub fair_a : reserve_a id h * total_lp id h' ≤ reserve_a id h' * total_lp id h
  pub fair_b : reserve_b id h * total_lp id h' ≤ reserve_b id h' * total_lp id h
  pub shares :
      (a : Str)
      → length a ≤ 500
      → lp_shares id a h' ≡ (if str_eq a who then lp_shares id a h - lp else lp_shares id a h)

-- The three numbers of a pool and the shares of one account, written one after the other.
module _ (id who : Str) (a b c v : ℕ) (h : HostData) (short : IsShortId id) (room : HasRoom 4 h)
    (distinct : HasDistinctKeys h.state) (fits_a : a < 2 ^ 128) (fits_b : b < 2 ^ 128)
    (fits_c : c < 2 ^ 128) (fits_v : v < 2 ^ 128) where
  abbrev pub after : HostData
  after = set_shares (lp_key id who) v (set_pool id a b c h)

  pub field-after :
      (f : Str)
      → IsField f
      → get_number (pool_key id f) after ≡ (
          if str_eq f (codes "total_lp")
          then c
          else if str_eq f (codes "reserve_b")
          then b
          else if str_eq f (codes "reserve_a")
          then a
          else get_number (pool_key id f) h)
  field-after f field =
      let w = set_pool id a b c h in
      let room_w : HasRoom 1 w =
        room-written id (codes "reserve_a") (codes "reserve_b") (codes "total_lp") a b c h short
          (omega arith) (omega arith) (omega arith) (omega arith) fits_a fits_b fits_c 1 room in
      let distinct_w =
        written-HasDistinctKeys id (codes "reserve_a") (codes "reserve_b") (codes "total_lp") a b c
          h short (omega arith) (omega arith) (omega arith) (omega arith) fits_a fits_b fits_c
          distinct in
      field-set_shares_or_del id who v w short room_w distinct_w fits_v f field
      ∙ field-written id (codes "reserve_a") (codes "reserve_b") (codes "total_lp") a b c h short
          (omega arith) (omega arith) (omega arith) (omega arith) fits_a fits_b fits_c f field

  pub shares-after :
      (x : Str)
      → length x ≤ 500
      → lp_shares id x after ≡ (if str_eq x who then v else lp_shares id x h)
  shares-after x short_x =
      let w = set_pool id a b c h in
      let room_w : HasRoom 1 w =
        room-written id (codes "reserve_a") (codes "reserve_b") (codes "total_lp") a b c h short
          (omega arith) (omega arith) (omega arith) (omega arith) fits_a fits_b fits_c 1 room in
      let distinct_w =
        written-HasDistinctKeys id (codes "reserve_a") (codes "reserve_b") (codes "total_lp") a b c
          h short (omega arith) (omega arith) (omega arith) (omega arith) fits_a fits_b fits_c
          distinct in
      let same =
        shares-written id (codes "reserve_a") (codes "reserve_b") (codes "total_lp") a b c h short
          (omega arith) (omega arith) (omega arith) (omega arith) fits_a fits_b fits_c x in
      shares-set_shares_or_del id who v w short room_w distinct_w fits_v x short_x ∙ rw same refl

-- The store after a withdrawal.
abbrev withdrawn : Liquidity → HostData → HostData
withdrawn l h =
    set_shares (lp_key l.pool_id (caller h)) (lp_shares l.pool_id (caller h) h - l.lp_tokens) (
      set_pool l.pool_id (wrapping_sub (reserve_a l.pool_id h) l.amount_a)
        (wrapping_sub (reserve_b l.pool_id h) l.amount_b)
        (wrapping_sub (total_lp l.pool_id h) l.lp_tokens) h)

no_wrap : (a b : ℕ) → b ≤ a → wrapping_sub a b ≡ a - b
no_wrap a b le = ground arith

own_left :
    (id who : Str) (lp : ℕ) (h : HostData) (x : Str)
    → (if str_eq x who then lp_shares id who h - lp else lp_shares id x h)
      ≡ (if str_eq x who then lp_shares id x h - lp else lp_shares id x h)
own_left id who lp h x = elim (Bool-cases (str_eq x who)) [
  | inl same ↦ let e : x ≡ who = (str_eq_iff x who).0 same in rw e refl
  | inr other ↦ rw other refl
]

withdrawn-Withdraws :
    (l : Liquidity) (h : HostData)
    → MayRemove h l
    → FitsWithdrawal h l.pool_id l.lp_tokens
    → Withdraws l.pool_id (caller h) l.lp_tokens h (withdrawn l h)
unfolding str_eq
withdrawn-Withdraws l h may fits =
    let id = l.pool_id in
    let lp = l.lp_tokens in
    let t = total_lp id h in
    let ra = reserve_a id h in
    let rb = reserve_b id h in
    let own = lp_shares id (caller h) h in
    let below_a = get_number_fits (pool_key id (codes "reserve_a")) h in
    let below_b = get_number_fits (pool_key id (codes "reserve_b")) h in
    let below_t = get_number_fits (pool_key id (codes "total_lp")) h in
    let below_v = get_number_fits (lp_key id (caller h)) h in
    let exact_a : l.amount_a ≡ share_of lp ra t = ground (arith, may.paid_a, fits.fits_a) in
    let exact_b : l.amount_b ≡ share_of lp rb t = ground (arith, may.paid_b, fits.fits_b) in
    let within_a = share_within lp ra t may.some_lp fits.part in
    let within_b = share_within lp rb t may.some_lp fits.part in
    let a = ra - share_of lp ra t in
    let b = rb - share_of lp rb t in
    let at =
      field-after id (caller h) a b (t - lp) (own - lp) h fits.short fits.room fits.distinct
        (omega (arith, below_a)) (omega (arith, below_b)) (omega (arith, below_t))
        (omega (arith, below_v)) in
    let shares_at =
      shares-after id (caller h) a b (t - lp) (own - lp) h fits.short fits.room fits.distinct
        (omega (arith, below_a)) (omega (arith, below_b)) (omega (arith, below_t))
        (omega (arith, below_v)) in
    let a' = at (codes "reserve_a") (omega arith) in
    let b' = at (codes "reserve_b") (omega arith) in
    let t' = at (codes "total_lp") (omega arith) in
    rw
      (
        exact_a,
        exact_b,
        no_wrap ra (share_of lp ra t) within_a,
        no_wrap rb (share_of lp rb t) within_b,
        no_wrap t lp fits.part,
      )
      (record {
        owned = may.covered;
        paid_a = rw a' (omega (arith, within_a));
        paid_b = rw b' (omega (arith, within_b));
        less_lp = rw t' (omega (arith, fits.part));
        fair_a = rw (a', t') (withdrawal_fair lp ra t may.some_lp fits.part);
        fair_b = rw (b', t') (withdrawal_fair lp rb t may.some_lp fits.part);
        shares = λ x short_x. shares_at x short_x ∙ own_left id (caller h) lp h x;
      })

-- A successful withdrawal of shares that are part of the total, from a pool with an identifier of
-- at most 512 bytes, in a store that lists no key twice and with room for four more keys, of which
-- no step overflows: the caller owned the shares, both reserves fall by the shares' part of them,
-- rounded down, the total falls by the shares, of the addresses of at most 500 bytes the caller's
-- shares fall by as many and no other's change, and each share that is left stands for at least as
-- much of both reserves as before.
pub withdrawal_is_proportional :
    (h h' : HostData) (id : Str) (lp : ℕ)
    → arg 0 h ≡ some id
    → IsAmount 1 h lp
    → FitsWithdrawal h id lp
    → remove_liquidity h ≡ (ok tt, h')
    → Withdraws id (caller h) lp h h'
unfolding remove_liquidity
withdrawal_is_proportional h h' id lp given (s, at, is_amount) fits e =
    elim (Outcome-cases (check_remove h)) [
      | inl (l, q) ↦
          let may = check_remove-MayRemove h l q in
          let same_id : id ≡ l.pool_id =
            ground (arith, text_arg-ok 0 DexError.no_pool_id h l.pool_id may.id_given) in
          let (s', at', is_lp) = number_arg-ok 1 DexError.no_lp_amount h l.lp_tokens may.lp_given in
          let same_text : s ≡ s' = ground arith in
          let same_lp : lp ≡ l.lp_tokens = cc in
          let done : remove_liquidity h ≡ (ok tt, withdrawn l h) = rw (remove_liquidity, q) refl in
          let last : h' ≡ withdrawn l h = cc in
          let fits' : FitsWithdrawal h l.pool_id l.lp_tokens = rw⁻¹ (same_id, same_lp) fits in
          rw (last, same_id, same_lp) (withdrawn-Withdraws l h may fits')
      | inr (inl (x, q)) ↦ absurd (ground arith)
      | inr (inr q) ↦ absurd (ground arith)
    ]
