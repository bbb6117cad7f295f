-- ===== src/Contracts/Dex/Swap.antt =====
-- crates/los-contracts/src/dex_amm.rs, `swap`: what a trade does to a pool.
use unauthority_core.Base.{
  ℕ, ◌+◌, ◌-◌, ◌*◌, ◌≤◌, ◌<◌, ◌≡◌, refl, ◌^◌, Str, codes, str_eq, true, false, Bool-cases, some,
  arith, inl, inr, u128,
}
use native.Mathlib.Nat.{mul_comm}
use unauthority_core.Base.Outcome.{ok, Outcome-cases}
use unauthority_core.Vm.Host.{HostData}
use unauthority_core.Vm.Sdk.{arg}
use unauthority_core.Contracts.Token.State.{set_number}
use unauthority_core.Contracts.Token.Store.{HasRoom}
use unauthority_core.Contracts.Token.Writes.{get_number_fits}
use unauthority_core.Contracts.Dex.Math.{max_fee_bps, wrapping_sub, trade_keeps_product}
use unauthority_core.Contracts.Dex.State.{
  pool_key, reserve_a, reserve_b, total_lp, fee_bps, lp_shares, DexError,
}
use unauthority_core.Contracts.Dex.Guards.{
  IsAmount, MayTrade, check_swap-MayTrade, text_arg-ok, number_arg-ok, reserve_in, reserve_out,
}
use unauthority_core.Contracts.Dex.Pool.{IsShortId, field-written, shares-written}
use unauthority_core.Contracts.Dex.{Trade, check_swap, store_trade, swap}

-- No step of the trade overflows a u128.
pub record FitsTrade (h : HostData) (id : Str) (amount : ℕ) : Type 0 where
  pub small_fee : fee_bps id h ≤ max_fee_bps
  pub fits_fee : amount * fee_bps id h < 2 ^ 128
  pub fits_a : amount * reserve_a id h < 2 ^ 128
  pub fits_b : amount * reserve_b id h < 2 ^ 128
  pub fits_sum_a : reserve_a id h + amount < 2 ^ 128
  pub fits_sum_b : reserve_b id h + amount < 2 ^ 128

-- What a trade keeps.
pub record Trades (id : Str) (h h' : HostData) : Type 0 where
  pub product : reserve_a id h * reserve_b id h ≤ reserve_a id h' * reserve_b id h'
  pub same_lp : total_lp id h' ≡ total_lp id h
  pub same_fee : fee_bps id h' ≡ fee_bps id h
  pub same_shares : (a : Str) → lp_shares id a h' ≡ lp_shares id a h

product_kept :
    (t : Trade) (h : HostData)
    → FitsTrade h t.pool_id t.amount_in
    → MayTrade h t
    → reserve_in t h * reserve_out t h
      ≤ (reserve_in t h + t.amount_in) * (reserve_out t h - t.amount_out)
product_kept t h fits may =
    let e = may.output in
    rw e (
      trade_keeps_product t.amount_in (fee_bps t.pool_id h) (reserve_in t h) (reserve_out t h)
        fits.small_fee fits.fits_fee (ground (arith, fits.fits_a, fits.fits_b))
        (ground (arith, fits.fits_sum_a, fits.fits_sum_b)) (rw⁻¹ e may.some_out)
        (rw⁻¹ e may.covered))

-- The reserve that comes in grows by the amount, the other shrinks by the output.
stored_forth :
    (t : Trade) (h : HostData)
    → t.is_a_to_b ≡ true
    → IsShortId t.pool_id
    → HasRoom 3 h
    → h.timestamp < 2 ^ 64
    → FitsTrade h t.pool_id t.amount_in
    → MayTrade h t
    → Trades t.pool_id h
        (set_number (pool_key t.pool_id (codes "last_trade")) h.timestamp (store_trade t h))
unfolding store_trade str_eq
stored_forth t h way short room clock fits may =
    let id = t.pool_id in
    let a = codes "reserve_a" in
    let b = codes "reserve_b" in
    let below = get_number_fits (pool_key id b) h in
    let kept : reserve_a id h * reserve_b id h
        ≤ (reserve_a id h + t.amount_in) * (reserve_b id h - t.amount_out) =
      ground (arith, product_kept t h fits may) in
    let covered : t.amount_out < reserve_b id h = ground (arith, may.covered) in
    let grown : u128 (reserve_a id h + t.amount_in) ≡ reserve_a id h + t.amount_in =
      omega (arith, fits.fits_sum_a) in
    let shrunk : wrapping_sub (reserve_b id h) t.amount_out ≡ reserve_b id h - t.amount_out =
      ground arith in
    let at =
      field-written id a b (codes "last_trade") (reserve_a id h + t.amount_in)
        (reserve_b id h - t.amount_out) h.timestamp h short room (omega arith) (omega arith)
        (omega arith) fits.fits_sum_a (omega (arith, below)) (omega arith) in
    rw (store_trade, way, grown, shrunk)
      (record {
        product = rw (at a (omega arith), at b (omega arith)) kept;
        same_lp = at (codes "total_lp") (omega arith);
        same_fee = at (codes "fee_bps") (omega arith);
        same_shares =
            shares-written id a b (codes "last_trade") (reserve_a id h + t.amount_in)
              (reserve_b id h - t.amount_out) h.timestamp h short room (omega arith) (omega arith)
              (omega arith) fits.fits_sum_a (omega (arith, below)) (omega arith);
      })

stored_back :
    (t : Trade) (h : HostData)
    → t.is_a_to_b ≡ false
    → IsShortId t.pool_id
    → HasRoom 3 h
    → h.timestamp < 2 ^ 64
    → FitsTrade h t.pool_id t.amount_in
    → MayTrade h t
    → Trades t.pool_id h
        (set_number (pool_key t.pool_id (codes "last_trade")) h.timestamp (store_trade t h))
unfolding store_trade str_eq
stored_back t h way short room clock fits may =
    let id = t.pool_id in
    let a = codes "reserve_a" in
    let b = codes "reserve_b" in
    let below = get_number_fits (pool_key id a) h in
    let kept : reserve_b id h * reserve_a id h
        ≤ (reserve_b id h + t.amount_in) * (reserve_a id h - t.amount_out) =
      ground (arith, product_kept t h fits may) in
    let covered : t.amount_out < reserve_a id h = ground (arith, may.covered) in
    let grown : u128 (reserve_b id h + t.amount_in) ≡ reserve_b id h + t.amount_in =
      omega (arith, fits.fits_sum_b) in
    let shrunk : wrapping_sub (reserve_a id h) t.amount_out ≡ reserve_a id h - t.amount_out =
      ground arith in
    let at =
      field-written id b a (codes "last_trade") (reserve_b id h + t.amount_in)
        (reserve_a id h - t.amount_out) h.timestamp h short room (omega arith) (omega arith)
        (omega arith) fits.fits_sum_b (omega (arith, below)) (omega arith) in
    rw (store_trade, way, grown, shrunk)
      (record {
        product =
            rw (at a (omega arith), at b (omega arith))
              (omega (
                arith,
                kept,
                mul_comm (reserve_a id h) (reserve_b id h),
                mul_comm (reserve_a id h - t.amount_out) (reserve_b id h + t.amount_in),
              ));
        same_lp = at (codes "total_lp") (omega arith);
        same_fee = at (codes "fee_bps") (omega arith);
        same_shares =
            shares-written id b a (codes "last_trade") (reserve_b id h + t.amount_in)
              (reserve_a id h - t.amount_out) h.timestamp h short room (omega arith) (omega arith)
              (omega arith) fits.fits_sum_b (omega (arith, below)) (omega arith);
      })

-- A successful trade in the pool that the first argument names, with an identifier of at most 512
-- bytes, a fee of at most 10%, a time that fits a u64, and room for three more keys in this
-- execution, of which no step overflows a u128: it does not lower the product of the two reserves,
-- and changes neither the fee nor the total of the shares nor the shares of any address.
pub swap_keeps_product :
    (h h' : HostData) (id : Str) (amount : ℕ)
    → arg 0 h ≡ some id
    → IsAmount 2 h amount
    → IsShortId id
    → HasRoom 3 h
    → h.timestamp < 2 ^ 64
    → FitsTrade h id amount
    → swap h ≡ (ok tt, h')
    → Trades id h h'
unfolding swap
swap_keeps_product h h' id amount given (s, at, is_amount) short room clock fits e =
    elim (Outcome-cases (check_swap h)) [
      | inl (t, q) ↦
          let may = check_swap-MayTrade h t q in
          let same_id : id ≡ t.pool_id =
            ground (arith, text_arg-ok 0 DexError.no_pool_id h t.pool_id may.id_given) in
          let (s', at', is_in) =
            number_arg-ok 2 DexError.no_amount_in h t.amount_in may.amount_given in
          let same_text : s ≡ s' = ground arith in
          let same_amount : amount ≡ t.amount_in = cc in
          let done : swap h ≡ (
            ok tt,
            set_number (pool_key t.pool_id (codes "last_trade")) h.timestamp (store_trade t h),
          ) =
            rw (swap, q) refl in
          let last : h'
              ≡ set_number (pool_key t.pool_id (codes "last_trade")) h.timestamp (store_trade t h) =
            cc in
          let fits' : FitsTrade h t.pool_id t.amount_in = rw⁻¹ (same_id, same_amount) fits in
          let short' : IsShortId t.pool_id = rw⁻¹ same_id short in
          rw (last, same_id)
            (elim (Bool-cases t.is_a_to_b) [
              | inl forth ↦ stored_forth t h forth short' room clock fits' may
              | inr back ↦ stored_back t h back short' room clock fits' may
            ])
      | inr (inl (x, q)) ↦ absurd (ground arith)
      | inr (inr q) ↦ absurd (ground arith)
    ]
