-- ===== src/Contracts/Token/Outstanding.antt =====
-- crates/los-contracts/src/usp01_token.rs: the sum of all balances in the store, under each write.
use unauthority_core.Base.{
  ℕ, ◌+◌, ◌^◌, ◌≤◌, ◌<◌, ◌≡◌, refl, Str, starts_with, true, false, some, arith, if◌then◌else◌, take,
  str_key, inl, inr, Option-cases, ◌⊎◌,
}
use unauthority_core.Base.Map.{lookup}
use unauthority_core.Base.Map.Weigh.{weigh, weight_at, weigh-insert, weight_at-le-weigh}
use unauthority_core.Vm.Host.{HostData, read_text, max_state_key_size, max_state_value_size}
use unauthority_core.Vm.Sdk.{set_str}
use unauthority_core.Contracts.Decimal.{
  parse_u128, parse_from, u128_to_str, parse-u128_to_str, parse-from_utf8, length-u128_to_str,
}
use unauthority_core.Contracts.Token.State.{
  bal_prefix, bal_key, get_number, set_number, get_balance, set_balance,
}
use unauthority_core.Contracts.Token.Store.{
  HasRoom, HasShortValues, read_text-prefix, set_str-readable, set_str-unreadable, get_str-readable,
  get_str-unreadable, read_value, take_all,
}

-- What an entry holds of the token.
abbrev pub balance_in : Str → Str → ℕ
balance_in k v = if starts_with k bal_prefix then parse_u128 v else 0

-- The sum of all balances.
abbrev pub outstanding : HostData → ℕ
outstanding h = weigh balance_in h.state

-- A write at a key that is no balance changes no balance.
pub set_str-outstanding :
    (key value : Str) (h : HostData)
    → starts_with key bal_prefix ≡ false
    → HasRoom 1 h
    → outstanding (set_str key value h) ≡ outstanding h
set_str-outstanding key value h other room =
    elim (Option-cases (read_text max_state_key_size key)) [
      | inl lost ↦ rw (set_str-unreadable key value h lost) refl
      | inr (k, readable) ↦ rw (set_str-readable key value k h readable room) (
          ground (
            arith,
            weigh-insert balance_in k (take max_state_value_size value) h.state,
            read_text-prefix max_state_key_size key k bal_prefix (omega arith) readable,
          ))
    ]

bal_key-prefix : (addr : Str) → starts_with (bal_key addr) bal_prefix ≡ true
unfolding starts_with
bal_key-prefix addr = refl

readable_balance :
    (addr k : Str) (h : HostData)
    → HasShortValues h
    → read_text max_state_key_size (bal_key addr) ≡ some k
    → get_balance addr h ≡ weight_at balance_in k (lookup k h.state)
unfolding get_number parse_u128 parse_from
readable_balance addr k h short readable =
    let is_balance =
      read_text-prefix max_state_key_size (bal_key addr) k bal_prefix (omega arith) readable in
    elim (Option-cases (lookup k h.state)) [
      | inl missing ↦ rw (get_number, get_str-readable (bal_key addr) k h readable, missing) refl
      | inr (v, found) ↦
          rw
            (
              get_number,
              get_str-readable (bal_key addr) k h readable,
              found,
              read_value,
              take_all max_state_value_size v (short k v found),
            )
            (ground (arith, parse-from_utf8 v, is_balance, bal_key-prefix addr))
    ]

replaced_balance :
    (addr k : Str) (n : ℕ) (h : HostData)
    → n < 2 ^ 128
    → HasRoom 1 h
    → HasShortValues h
    → read_text max_state_key_size (bal_key addr) ≡ some k
    → outstanding (set_balance addr n h) + get_balance addr h ≡ outstanding h + n
unfolding set_number
replaced_balance addr k n h fits room short readable =
    rw
      (
        readable_balance addr k h short readable,
        set_number,
        set_str-readable (bal_key addr) (u128_to_str n) k h readable room,
        take_all max_state_value_size (u128_to_str n) (omega (arith, length-u128_to_str n)),
      )
      (ground (
        arith,
        weigh-insert balance_in k (u128_to_str n) h.state,
        parse-u128_to_str n fits,
        read_text-prefix max_state_key_size (bal_key addr) k bal_prefix (omega arith) readable,
        bal_key-prefix addr,
      ))

-- A new balance replaces the old one in the sum, unless its key cannot be written; then the old
-- one is 0.
pub set_balance-outstanding :
    (addr : Str) (n : ℕ) (h : HostData)
    → n < 2 ^ 128
    → HasRoom 1 h
    → HasShortValues h
    → (outstanding (set_balance addr n h) + get_balance addr h ≡ outstanding h + n)
      ⊎ ((outstanding (set_balance addr n h) ≡ outstanding h) × (get_balance addr h ≡ 0))
unfolding get_number set_number parse_u128 parse_from
set_balance-outstanding addr n h fits room short =
    elim (Option-cases (read_text max_state_key_size (bal_key addr))) [
      | inl lost ↦ inr (
        rw (set_number, set_str-unreadable (bal_key addr) (u128_to_str n) h lost) refl,
        rw (get_number, get_str-unreadable (bal_key addr) h lost) refl,
      )
      | inr (k, readable) ↦ inl (replaced_balance addr k n h fits room short readable)
    ]

-- No balance is more than the sum of all.
pub balance-le-outstanding :
    (addr : Str) (h : HostData) → HasShortValues h → get_balance addr h ≤ outstanding h
unfolding get_number parse_u128 parse_from
balance-le-outstanding addr h short =
    elim (Option-cases (read_text max_state_key_size (bal_key addr))) [
      | inl lost ↦ rw (get_number, get_str-unreadable (bal_key addr) h lost) (omega arith)
      | inr (k, readable) ↦
          rw (readable_balance addr k h short readable) (weight_at-le-weigh balance_in k h.state)
    ]
