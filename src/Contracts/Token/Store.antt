-- ===== src/Contracts/Token/Store.antt =====
-- How reads and writes of the store interact, for every key of the token contract.
use unauthority_core.Base.{
  ℕ, zero, suc, ◌+◌, ◌≤◌, ◌<◌, ◌≡◌, ◌≢◌, refl, Str, str_eq, str_eq_iff, starts_with, Option, none,
  some, [], ◌∷◌, arith, leb, if◌then◌else◌, length, take, from_utf8, length-take, str_key, inl, inr,
  ap, ◌⊎◌, sym, ◌∙◌, false, Bool-cases, Option-cases,
}
use unauthority_core.Base.Map.{lookup, insert, lookup-insert}
use unauthority_core.Base.Map.Size.{length-insert}
use unauthority_core.Base.Map.Every.{Every, insert-Every}
use unauthority_core.Vm.Host.{
  HostData, read_text, host_set_state, host_get_state, max_state_keys, max_state_key_size,
  max_state_value_size,
}
use unauthority_core.Vm.Sdk.{get_str, set_str}

-- That many more keys can be written in this execution.
abbrev pub HasRoom : ℕ → HostData → Type 0
HasRoom n h = length h.dirty_keys + n ≤ max_state_keys

-- Every value can be read in full.
abbrev pub IsShortValue : Str → Str → Type 0
IsShortValue k v = length v ≤ max_state_value_size

abbrev pub HasShortValues : HostData → Type 0
HasShortValues h = Every IsShortValue h.state

pub take_all : (n : ℕ) (s : Str) → length s ≤ n → take n s ≡ s
take_all zero [] h = refl
take_all zero (b ∷ s) h = absurd (omega arith)
take_all (suc n) [] h = refl
take_all (suc n) (b ∷ s) h = ground (arith, take_all n s)

pub read_text-short : (n : ℕ) (s : Str) → length s ≤ n → read_text n s ≡ some s
unfolding read_text
read_text-short n s h = ground arith

module _ (key value k : Str) (h : HostData) (readable : read_text max_state_key_size key ≡ some k)
    (room : HasRoom 1 h) where
  pub set_str-readable : set_str key value h ≡ record h {
    state = insert k (take max_state_value_size value) h.state;
    dirty_keys = insert k tt h.dirty_keys;
  }
  unfolding set_str host_set_state
  set_str-readable = rw (host_set_state, readable) (ground arith)

pub set_str-unreadable :
    (key value : Str) (h : HostData)
    → read_text max_state_key_size key ≡ none
    → set_str key value h ≡ h
unfolding set_str host_set_state
set_str-unreadable key value h e = rw (host_set_state, e) refl

pub set_str-HasRoom :
    (n : ℕ) (key value : Str) (h : HostData) → HasRoom (n + 1) h → HasRoom n (set_str key value h)
set_str-HasRoom n key value h room = elim (Option-cases (read_text max_state_key_size key)) [
  | inl lost ↦ rw (set_str-unreadable key value h lost) (omega arith)
  | inr (k, readable) ↦
      rw (set_str-readable key value k h readable (omega arith))
        (omega (arith, length-insert k tt h.dirty_keys))
]

pub set_str-HasShortValues :
    (key value : Str) (h : HostData)
    → HasRoom 1 h
    → HasShortValues h
    → HasShortValues (set_str key value h)
set_str-HasShortValues key value h room short =
    elim (Option-cases (read_text max_state_key_size key)) [
      | inl lost ↦ rw (set_str-unreadable key value h lost) short
      | inr (k, readable) ↦ rw (set_str-readable key value k h readable room) (
          insert-Every IsShortValue k (take max_state_value_size value) h.state
            (omega (arith, length-take max_state_value_size value)) short)
    ]

-- What `get_str` makes of what stands in the store.
abbrev pub read_value : Option Str → Option Str
read_value none = none
read_value (some v) = from_utf8 (take max_state_value_size v)

pub get_str-readable :
    (key k : Str) (h : HostData)
    → read_text max_state_key_size key ≡ some k
    → get_str key h ≡ read_value (lookup k h.state)
unfolding get_str host_get_state
get_str-readable key k h e = rw (get_str, host_get_state, e) (ground arith)

pub get_str-unreadable :
    (key : Str) (h : HostData) → read_text max_state_key_size key ≡ none → get_str key h ≡ none
unfolding get_str host_get_state
get_str-unreadable key h e = rw (get_str, host_get_state, e) refl

pub length-distinct : (s t : Str) → length s < length t → str_eq s t ≡ false
length-distinct s t lt = elim (Bool-cases (str_eq s t)) [
  | inl same ↦
      let e : s ≡ t = (str_eq_iff s t).0 same in
      let equal : length s ≡ length t = ap length e in absurd (omega (arith, equal, lt))
  | inr other ↦ other
]

-- A text is read as it is, or it is too long, and a full piece of it is read.
read_text-full :
    (n : ℕ) (s t : Str) → read_text n s ≡ some t → (s ≡ t) ⊎ ((n < length s) × (length t ≡ n))
unfolding read_text
read_text-full n s t e = elim (Bool-cases (leb (length s) n)) [
  | inl whole ↦ inl (ground arith)
  | inr long ↦
      let cut : take n s ≡ t = ground arith in
      let past : n < length s = ground arith in
      inr (past, rw⁻¹ cut (omega (arith, length-take n s, past)))
]

pub length-read_text : (n : ℕ) (s t : Str) → read_text n s ≡ some t → length t ≤ n
unfolding read_text
length-read_text n s t e = elim (Bool-cases (leb (length s) n)) [
  | inl whole ↦
      let same : s ≡ t = ground arith in let short : length s ≤ n = ground arith in rw⁻¹ same short
  | inr long ↦ let cut : take n s ≡ t = ground arith in rw⁻¹ cut (omega (arith, length-take n s))
]

-- A key that is cut is written at another key than every shorter one.
pub str_eq-written :
    (j key k : Str)
    → length j < max_state_key_size
    → read_text max_state_key_size key ≡ some k
    → str_eq j k ≡ str_eq j key
str_eq-written j key k short readable = elim (read_text-full max_state_key_size key k readable) [
  | inl same ↦ rw same refl
  | inr (past, full) ↦
      length-distinct j k (omega (arith, full, short))
      ∙ sym (length-distinct j key (omega (arith, past, short)))
]

pub str_eq-lost :
    (j key : Str)
    → length j < max_state_key_size
    → read_text max_state_key_size key ≡ none
    → str_eq j key ≡ false
unfolding read_text
str_eq-lost j key short lost = length-distinct j key (ground (arith, short))

-- What is read at a short key is what was written there last.
pub get_str-set_str :
    (j key value : Str) (h : HostData)
    → length j < max_state_key_size
    → length value ≤ max_state_value_size
    → from_utf8 value ≡ some value
    → HasRoom 1 h
    → get_str j (set_str key value h) ≡ (if str_eq j key then some value else get_str j h)
get_str-set_str j key value h short_j short_value is_text room =
    let readable_j = read_text-short max_state_key_size j (omega arith) in
    elim (Option-cases (read_text max_state_key_size key)) [
      | inl lost ↦ rw (set_str-unreadable key value h lost, str_eq-lost j key short_j lost) refl
      | inr (k, readable) ↦ rw⁻¹ (str_eq-written j key k short_j readable) (
          rw
            (
              set_str-readable key value k h readable room,
              take_all max_state_value_size value short_value,
              get_str-readable j j h readable_j,
            )
            (ground (
              arith,
              get_str-readable j j
                  (record h {
                    state = insert k value h.state;
                    dirty_keys = insert k tt h.dirty_keys;
                  })
                  readable_j,
              lookup-insert j k value h.state,
              take_all max_state_value_size value short_value,
              is_text,
            )))
    ]

take_prefix : (n : ℕ) (s p : Str) → length p ≤ n → starts_with (take n s) p ≡ starts_with s p
unfolding starts_with
take_prefix n s [] h = refl
take_prefix zero s (b ∷ p) h = absurd (omega arith)
take_prefix (suc n) [] (b ∷ p) h = refl
take_prefix (suc n) (a ∷ s) (b ∷ p) h = ground (arith, take_prefix n s p)

pub read_text-prefix :
    (n : ℕ) (s k p : Str)
    → length p ≤ n
    → read_text n s ≡ some k
    → starts_with k p ≡ starts_with s p
unfolding read_text
read_text-prefix n s k p h e = elim (Bool-cases (leb (length s) n)) [
  | inl short ↦ let q : s ≡ k = ground arith in rw q refl
  | inr long ↦ let q : take n s ≡ k = ground arith in rw⁻¹ q (take_prefix n s p h)
]

-- A write at a key that differs in a prefix leaves what is read.
pub get_str-other :
    (p j key value : Str) (h : HostData)
    → length p ≤ max_state_key_size
    → starts_with key p ≢ starts_with j p
    → HasRoom 1 h
    → get_str j (set_str key value h) ≡ get_str j h
get_str-other p j key value h short_p other room =
    elim (Option-cases (read_text max_state_key_size key)) [
      | inl lost ↦ rw (set_str-unreadable key value h lost) refl
      | inr (k, readable) ↦ elim (Option-cases (read_text max_state_key_size j)) [
        | inl lost ↦
            get_str-unreadable j (set_str key value h) lost ∙ sym (get_str-unreadable j h lost)
        | inr (i, readable_j) ↦
            let prefix_i = read_text-prefix max_state_key_size j i p short_p readable_j in
            let prefix_k = read_text-prefix max_state_key_size key k p short_p readable in
            let differs : i ≢ k = λ e. other (sym prefix_k ∙ rw⁻¹ e prefix_i) in
            rw
              (
                set_str-readable key value k h readable room,
                get_str-readable j i h readable_j,
                get_str-readable j i
                    (record h {
                      state = insert k (take max_state_value_size value) h.state;
                      dirty_keys = insert k tt h.dirty_keys;
                    })
                    readable_j,
                lookup-insert i k (take max_state_value_size value) h.state,
              )
              (ground (arith, str_eq_iff i k))
      ]
    ]
