-- ===== src/Contracts/Token/Numbers.antt =====
-- How reads and writes of numbers in the store interact, for every key.
use unauthority_core.Base.{
  from_utf8-IsAscii, ℕ, ◌+◌, ◌^◌, ◌≤◌, ◌<◌, ◌≡◌, ◌≢◌, refl, Str, str_eq, str_eq_iff, starts_with,
  some, arith, if◌then◌else◌, length, take, str_key, inl, inr, Option-cases,
}
use unauthority_core.Base.Map.{insert, lookup-insert, HasDistinctKeys, insert-HasDistinctKeys}
use unauthority_core.Vm.Host.{HostData, read_text, max_state_key_size, max_state_value_size}
use unauthority_core.Contracts.Decimal.{
  u128_to_str, parse_u128, parse_from, parse-u128_to_str, length-u128_to_str, u128_to_str-IsAscii,
}
use unauthority_core.Contracts.Token.State.{get_number, set_number}
use unauthority_core.Contracts.Token.Store.{
  HasRoom, HasShortValues, get_str-other, get_str-readable, get_str-set_str, get_str-unreadable,
  set_str-HasRoom, set_str-HasShortValues, set_str-readable, set_str-unreadable, take_all,
}

-- A number that is written is read back at every short key.
pub get_number-set_number :
    (j key : Str) (n : ℕ) (h : HostData)
    → length j < max_state_key_size
    → n < 2 ^ 128
    → HasRoom 1 h
    → get_number j (set_number key n h) ≡ (if str_eq j key then n else get_number j h)
unfolding get_number set_number
get_number-set_number j key n h short_j fits room =
    rw
      (get_str-set_str j key (u128_to_str n) h short_j (omega (arith, length-u128_to_str n))
        (from_utf8-IsAscii (u128_to_str n) (u128_to_str-IsAscii n)) room)
      (ground (arith, parse-u128_to_str n fits))

pub get_number-other :
    (p j key : Str) (n : ℕ) (h : HostData)
    → length p ≤ max_state_key_size
    → starts_with key p ≢ starts_with j p
    → HasRoom 1 h
    → get_number j (set_number key n h) ≡ get_number j h
unfolding get_number set_number
get_number-other p j key n h short_p other room =
    rw (get_number, set_number, get_str-other p j key (u128_to_str n) h short_p other room) refl

-- A key at which there is a number is read, and so it can be written.
pub get_number-readable :
    (key : Str) (h : HostData)
    → get_number key h ≢ 0
    → (k : Str) × (read_text max_state_key_size key ≡ some k)
unfolding get_number parse_u128 parse_from
get_number-readable key h some_number = elim (Option-cases (read_text max_state_key_size key)) [
  | inl lost ↦ absurd (some_number (rw (get_number, get_str-unreadable key h lost) refl))
  | inr found ↦ found
]

-- Where a number stands, a write of the same key is read back, however long the key is.
pub get_number-rewrite :
    (key : Str) (n : ℕ) (h : HostData)
    → get_number key h ≢ 0
    → n < 2 ^ 128
    → HasRoom 1 h
    → get_number key (set_number key n h) ≡ n
unfolding get_number set_number
get_number-rewrite key n h some_number fits room =
    let (k, readable) = get_number-readable key h some_number in
    let text = u128_to_str n in
    let short : length text ≤ max_state_value_size = omega (arith, length-u128_to_str n) in
    rw
      (
        get_number,
        set_number,
        set_str-readable key text k h readable room,
        take_all max_state_value_size text short,
        get_str-readable key k
            (record h { state = insert k text h.state; dirty_keys = insert k tt h.dirty_keys })
            readable,
        lookup-insert k k text h.state,
      )
      (ground (
        arith,
        str_eq_iff k k,
        take_all max_state_value_size text short,
        from_utf8-IsAscii text (u128_to_str-IsAscii n),
        parse-u128_to_str n fits,
      ))

pub set_number-HasRoom :
    (n : ℕ) (key : Str) (v : ℕ) (h : HostData) → HasRoom (n + 1) h → HasRoom n (set_number key v h)
unfolding set_number
set_number-HasRoom n key v h room = set_str-HasRoom n key (u128_to_str v) h room

pub set_number-HasShortValues :
    (key : Str) (v : ℕ) (h : HostData)
    → HasRoom 1 h
    → HasShortValues h
    → HasShortValues (set_number key v h)
unfolding set_number
set_number-HasShortValues key v h room short =
    set_str-HasShortValues key (u128_to_str v) h room short

pub set_number-HasDistinctKeys :
    (key : Str) (v : ℕ) (h : HostData)
    → HasRoom 1 h
    → HasDistinctKeys h.state
    → HasDistinctKeys (set_number key v h).state
unfolding set_number
set_number-HasDistinctKeys key v h room distinct =
    elim (Option-cases (read_text max_state_key_size key)) [
      | inl lost ↦ rw (set_number, set_str-unreadable key (u128_to_str v) h lost) distinct
      | inr (k, readable) ↦
          rw (set_number, set_str-readable key (u128_to_str v) k h readable room)
            (insert-HasDistinctKeys k (take max_state_value_size (u128_to_str v)) h.state distinct)
    ]
