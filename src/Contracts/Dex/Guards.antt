-- ===== src/Contracts/Dex/Guards.antt =====
-- What the checks of the exchange let through.
use unauthority_core.Base.{
  ℕ, ◌*◌, ◌/◌, ◌≤◌, ◌<◌, ◌≡◌, ◌≢◌, Str, some, arith, Option-cases, inl, inr, u128, if◌then◌else◌,
}
use unauthority_core.Base.Outcome.{ok, Outcome-cases}
use unauthority_core.Vm.Host.{HostData}
use unauthority_core.Vm.Sdk.{arg, caller}
use unauthority_core.Contracts.Decimal.{parse_u128}
use unauthority_core.Contracts.Dex.Math.{compute_output, deduct_fee}
use unauthority_core.Contracts.Dex.State.{
  DexError, text_arg, number_arg, reserve_a, reserve_b, total_lp, fee_bps, lp_shares,
}
use unauthority_core.Contracts.Dex.{
  Trade, Liquidity, check_swap, check_add, check_remove, minted_lp,
}

-- What an amount at an index is.
abbrev pub IsAmount : ℕ → HostData → ℕ → Type 0
IsAmount idx h n = (s : Str) × (arg idx h ≡ some s) × (n ≡ parse_u128 s)

pub text_arg-ok :
    (idx : ℕ) (e : DexError) (h : HostData) (s : Str) → text_arg idx e h ≡ ok s → arg idx h ≡ some s
unfolding text_arg
text_arg-ok idx e h s q = ground arith

pub number_arg-ok :
    (idx : ℕ) (e : DexError) (h : HostData) (n : ℕ)
    → number_arg parse_u128 idx e h ≡ ok n
    → IsAmount idx h n
unfolding number_arg
number_arg-ok idx e h n q = elim (Option-cases (arg idx h)) [
  | inl missing ↦ absurd (ground arith)
  | inr (s, at) ↦ (s, at, ground arith)
]

abbrev pub reserve_in : Trade → HostData → ℕ
reserve_in t h = if t.is_a_to_b then reserve_a t.pool_id h else reserve_b t.pool_id h

abbrev pub reserve_out : Trade → HostData → ℕ
reserve_out t h = if t.is_a_to_b then reserve_b t.pool_id h else reserve_a t.pool_id h

pub record MayTrade (h : HostData) (t : Trade) : Type 0 where
  pub id_given : text_arg 0 DexError.no_pool_id h ≡ ok t.pool_id
  pub amount_given : number_arg parse_u128 2 DexError.no_amount_in h ≡ ok t.amount_in
  pub output :
      t.amount_out
      ≡ compute_output
          (deduct_fee t.amount_in (fee_bps t.pool_id h)).0
          (reserve_in t h)
          (reserve_out t h)
  pub some_out : t.amount_out ≢ 0
  pub covered : t.amount_out < reserve_out t h

pub check_swap-MayTrade : (h : HostData) (t : Trade) → check_swap h ≡ ok t → MayTrade h t
unfolding check_swap
check_swap-MayTrade h t e = record {
  id_given = ground arith;
  amount_given = ground arith;
  output = ground arith;
  some_out = ground arith;
  covered = ground arith;
}

pub record MayAdd (h : HostData) (l : Liquidity) (a b : ℕ) : Type 0 where
  pub id_given : text_arg 0 DexError.no_pool_id h ≡ ok l.pool_id
  pub a_given : number_arg parse_u128 1 DexError.no_amount_a h ≡ ok a
  pub b_given : number_arg parse_u128 2 DexError.no_amount_b h ≡ ok b
  pub some_a : reserve_a l.pool_id h ≢ 0
  pub some_b : reserve_b l.pool_id h ≢ 0
  pub some_lp : total_lp l.pool_id h ≢ 0
  pub minted :
      l.lp_tokens
      ≡ minted_lp a b (reserve_a l.pool_id h) (reserve_b l.pool_id h) (total_lp l.pool_id h)
  pub used_a : l.amount_a ≡ u128 (l.lp_tokens * reserve_a l.pool_id h) / total_lp l.pool_id h
  pub used_b : l.amount_b ≡ u128 (l.lp_tokens * reserve_b l.pool_id h) / total_lp l.pool_id h

pub check_add-MayAdd :
    (h : HostData) (l : Liquidity) → check_add h ≡ ok l → (a : ℕ) × (b : ℕ) × MayAdd h l a b
unfolding check_add
check_add-MayAdd h l e = elim (Outcome-cases (number_arg parse_u128 1 DexError.no_amount_a h)) [
  | inl (a, qa) ↦ elim (Outcome-cases (number_arg parse_u128 2 DexError.no_amount_b h)) [
    | inl (b, qb) ↦ (
      a,
      b,
      record {
        id_given = ground arith;
        a_given = qa;
        b_given = qb;
        some_a = ground arith;
        some_b = ground arith;
        some_lp = ground arith;
        minted = ground arith;
        used_a = ground arith;
        used_b = ground arith;
      },
    )
    | inr other ↦ absurd (ground arith)
  ]
  | inr other ↦ absurd (ground arith)
]

pub record MayRemove (h : HostData) (l : Liquidity) : Type 0 where
  pub id_given : text_arg 0 DexError.no_pool_id h ≡ ok l.pool_id
  pub lp_given : number_arg parse_u128 1 DexError.no_lp_amount h ≡ ok l.lp_tokens
  pub covered : l.lp_tokens ≤ lp_shares l.pool_id (caller h) h
  pub some_lp : total_lp l.pool_id h ≢ 0
  pub paid_a : l.amount_a ≡ u128 (l.lp_tokens * reserve_a l.pool_id h) / total_lp l.pool_id h
  pub paid_b : l.amount_b ≡ u128 (l.lp_tokens * reserve_b l.pool_id h) / total_lp l.pool_id h

pub check_remove-MayRemove : (h : HostData) (l : Liquidity) → check_remove h ≡ ok l → MayRemove h l
unfolding check_remove
check_remove-MayRemove h l e = record {
  id_given = ground arith;
  lp_given = ground arith;
  covered = ground arith;
  some_lp = ground arith;
  paid_a = ground arith;
  paid_b = ground arith;
}
