-- ===== src/Contracts/Dex/Shares.antt =====
-- crates/los-contracts/src/dex_amm.rs: shares of a reserve, and the shares that are left after a
-- withdrawal.
use unauthority_core.Base.{
  ℕ, ◌+◌, ◌-◌, ◌*◌, ◌/◌, ◌≤◌, ◌<◌, ◌≡◌, ◌≢◌, refl, ◌^◌, ◌∙◌, Str, str_eq, str_eq_iff, str_key,
  length, Bool-cases, Option-cases, arith, inl, inr, ◌==◌, if◌then◌else◌,
}
use native.Mathlib.Nat.{mul-le-mul, mul_comm}
use unauthority_core.Base.Map.{insert, erase, HasDistinctKeys, lookup-erase_ne, lookup-erase_self}
use unauthority_core.Vm.Host.{HostData, host_del_state, read_text, max_state_key_size}
use unauthority_core.Vm.Sdk.{del}
use unauthority_core.Contracts.Decimal.{parse_u128, parse_from}
use unauthority_core.Contracts.Token.State.{get_number}
use unauthority_core.Contracts.Token.Store.{
  HasRoom, get_str-readable, read_text-short, str_eq-lost, str_eq-written,
}
use unauthority_core.Contracts.Dex.Math.{quotient-mul}
use unauthority_core.Contracts.Dex.State.{pool_key, lp_key, lp_shares}
use unauthority_core.Contracts.Dex.Pool.{
  IsShortId, IsField, pool_key-short, lp_key-short, lp_key-str_eq, field-set_shares,
  shares-set_shares,
}
use unauthority_core.Contracts.Dex.{set_shares}

-- A number at a short key after a deletion.
get_number-del :
    (j key : Str) (h : HostData)
    → length j < max_state_key_size
    → HasDistinctKeys h.state
    → get_number j (del key h) ≡ (if str_eq j key then 0 else get_number j h)
unfolding get_number del host_del_state parse_u128 parse_from
get_number-del j key h short_j distinct =
    let readable_j = read_text-short max_state_key_size j (omega arith) in
    elim (Option-cases (read_text max_state_key_size key)) [
      | inl lost ↦ rw (del, host_del_state, lost, str_eq-lost j key short_j lost) refl
      | inr (k, readable) ↦
          let d : del key h
              ≡ record h { state = erase k h.state; dirty_keys = insert k tt h.dirty_keys } =
            rw (del, host_del_state, readable) refl in
          rw⁻¹ (str_eq-written j key k short_j readable) (
            rw
              (
                d,
                get_number,
                get_str-readable j j h readable_j,
                get_str-readable j j
                    (record h { state = erase k h.state; dirty_keys = insert k tt h.dirty_keys })
                    readable_j,
              )
              (elim (Bool-cases (str_eq j k)) [
                | inl same ↦
                    let same' : j ≡ k = (str_eq_iff j k).0 same in
                    rw (same', lookup-erase_self k h.state distinct)
                      (ground (arith, str_eq_iff k k))
                | inr other ↦
                    rw (other, lookup-erase_ne j k h.state (ground (arith, str_eq_iff j k))) refl
              ]))
    ]

shares-del :
    (id who : Str) (h : HostData)
    → IsShortId id
    → HasDistinctKeys h.state
    → (a : Str) → length a ≤ 500
    → lp_shares id a (del (lp_key id who) h) ≡ (if str_eq a who then 0 else lp_shares id a h)
shares-del id who h short distinct a short_a =
    get_number-del (lp_key id a) (lp_key id who) h (lp_key-short id a short short_a) distinct
    ∙ rw (lp_key-str_eq id a who) refl

field-del :
    (id who : Str) (h : HostData)
    → IsShortId id
    → HasDistinctKeys h.state
    → (f : Str) → IsField f
    → get_number (pool_key id f) (del (lp_key id who) h) ≡ get_number (pool_key id f) h
unfolding str_eq
field-del id who h short distinct f field =
    get_number-del (pool_key id f) (lp_key id who) h (pool_key-short id f short field) distinct

-- A share `lp / total` of a reserve, rounded down.
abbrev pub share_of : ℕ → ℕ → ℕ → ℕ
share_of lp reserve total = (lp * reserve) / total

pub share_within : (lp r t : ℕ) → t ≢ 0 → lp ≤ t → share_of lp r t ≤ r
share_within lp r t some_t le =
    let below : share_of lp r t * t ≤ lp * r = quotient-mul (lp * r) t (ground arith) in
    let more : lp * r ≤ t * r = mul-le-mul le (omega arith) in
    let bound : share_of lp r t * t ≤ r * t = omega (arith, below, more, mul_comm t r) in
    grind (arith, bound)

fair_sum :
    (lp rest kept p : ℕ)
    → p * (lp + rest) ≤ lp * (kept + p)
    → (kept + p) * rest ≤ kept * (lp + rest)
fair_sum lp rest kept p below = grind (arith, below)

fair_at :
    (lp rest kept p t r : ℕ) → t ≡ lp + rest → r ≡ kept + p → p * t ≤ lp * r → r * rest ≤ kept * t
fair_at lp rest kept p t r et er below = rw (et, er) (fair_sum lp rest kept p (rw⁻¹ (et, er) below))

-- What is withdrawn leaves at least as much of the reserve to each share that stays.
pub withdrawal_fair : (lp r t : ℕ) → t ≢ 0 → lp ≤ t → r * (t - lp) ≤ (r - share_of lp r t) * t
withdrawal_fair lp r t some_t le =
    let p = share_of lp r t in
    let below : p * t ≤ lp * r = quotient-mul (lp * r) t (ground arith) in
    let within : p ≤ r = share_within lp r t some_t le in
    fair_at lp (t - lp) (r - p) p t r (omega arith) (omega arith) below

-- The shares after `set_shares`, and the fields of the pool.
module _ (id who : Str) (v : ℕ) (h : HostData) (short : IsShortId id) (room : HasRoom 1 h)
    (distinct : HasDistinctKeys h.state) (fits : v < 2 ^ 128) where
  pub shares-set_shares_or_del :
      (a : Str)
      → length a ≤ 500
      → lp_shares id a (set_shares (lp_key id who) v h)
        ≡ (if str_eq a who then v else lp_shares id a h)
  unfolding set_shares
  shares-set_shares_or_del a short_a = elim (Bool-cases (v == 0)) [
    | inl nothing ↦
        let zero_v : v ≡ 0 = ground arith in
        rw (set_shares, nothing, shares-del id who h short distinct a short_a, zero_v) refl
    | inr left ↦ rw (set_shares, left) (shares-set_shares id v h short room a who short_a fits)
  ]

  pub field-set_shares_or_del :
      (f : Str)
      → IsField f
      → get_number (pool_key id f) (set_shares (lp_key id who) v h) ≡ get_number (pool_key id f) h
  unfolding set_shares
  field-set_shares_or_del f field = elim (Bool-cases (v == 0)) [
    | inl nothing ↦ rw (set_shares, nothing) (field-del id who h short distinct f field)
    | inr left ↦ rw (set_shares, left) (field-set_shares id v h short room f who)
  ]
