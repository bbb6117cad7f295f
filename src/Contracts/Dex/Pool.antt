-- ===== src/Contracts/Dex/Pool.antt =====
-- crates/los-contracts/src/dex_amm.rs: the numbers of a pool and the shares in it, under each write.
use unauthority_core.Base.{
  ℕ, ◌+◌, ◌≤◌, ◌<◌, ◌≡◌, refl, ◌^◌, ◌∙◌, Str, codes, str_eq, str_key, starts_with, length,
  length-append, arith, [], ◌∷◌, if◌then◌else◌, ◌++◌,
}
use unauthority_core.Base.Map.{HasDistinctKeys}
use unauthority_core.Vm.Host.{HostData, max_state_key_size}
use unauthority_core.Contracts.Token.State.{get_number, set_number}
use unauthority_core.Contracts.Token.Store.{HasRoom}
use unauthority_core.Contracts.Token.Numbers.{
  get_number-other, get_number-set_number, set_number-HasRoom, set_number-HasDistinctKeys,
}
use unauthority_core.Contracts.Dex.State.{pool_key, lp_key, lp_shares}

-- An identifier whose keys are written in full.
abbrev pub IsShortId : Str → Type 0
IsShortId id = length id ≤ 512

-- The name of a field of a pool.
abbrev pub IsField : Str → Type 0
IsField f = length f ≤ 32

str_eq-prefix : (p s t : Str) → str_eq (p ++ s) (p ++ t) ≡ str_eq s t
unfolding str_eq
str_eq-prefix [] s t = refl
str_eq-prefix (b ∷ p) s t = ground (arith, str_eq-prefix p s t)

pub pool_key-short :
    (id f : Str) → IsShortId id → IsField f → length (pool_key id f) < max_state_key_size
pool_key-short id f short field = omega (arith, length-append id (codes ":" ++ f))

pub lp_key-short :
    (id a : Str) → IsShortId id → length a ≤ 500 → length (lp_key id a) < max_state_key_size
lp_key-short id a short_id short_a = omega (arith, length-append id (codes ":" ++ a))

pool_key-str_eq : (id f g : Str) → str_eq (pool_key id f) (pool_key id g) ≡ str_eq f g
unfolding str_eq
pool_key-str_eq id f g = str_eq-prefix id (codes ":" ++ f) (codes ":" ++ g)

pub lp_key-str_eq : (id a b : Str) → str_eq (lp_key id a) (lp_key id b) ≡ str_eq a b
unfolding str_eq
lp_key-str_eq id a b = str_eq-prefix id (codes ":" ++ a) (codes ":" ++ b)

module _ (id : Str) (v : ℕ) (h : HostData) (short : IsShortId id) (room : HasRoom 1 h) where
  -- A field of the pool after a write of a field.
  pub field-set_field :
      (f g : Str)
      → IsField f
      → v < 2 ^ 128
      → get_number (pool_key id f) (set_number (pool_key id g) v h)
        ≡ (if str_eq f g then v else get_number (pool_key id f) h)
  field-set_field f g field_f fits =
      get_number-set_number (pool_key id f) (pool_key id g) v h (pool_key-short id f short field_f)
        fits room
      ∙ rw (pool_key-str_eq id f g) refl

  pub shares-set_field :
      (a g : Str) → lp_shares id a (set_number (pool_key id g) v h) ≡ lp_shares id a h
  unfolding starts_with
  shares-set_field a g =
      get_number-other (codes "lp:") (lp_key id a) (pool_key id g) v h (omega arith) (ground arith)
        room

  pub field-set_shares :
      (f a : Str)
      → get_number (pool_key id f) (set_number (lp_key id a) v h) ≡ get_number (pool_key id f) h
  unfolding starts_with
  field-set_shares f a =
      get_number-other (codes "pool:") (pool_key id f) (lp_key id a) v h (omega arith)
        (ground arith) room

  pub shares-set_shares :
      (a b : Str)
      → length a ≤ 500
      → v < 2 ^ 128
      → lp_shares id a (set_number (lp_key id b) v h) ≡ (if str_eq a b then v else lp_shares id a h)
  shares-set_shares a b short_a fits =
      get_number-set_number (lp_key id a) (lp_key id b) v h (lp_key-short id a short short_a) fits
        room
      ∙ rw (lp_key-str_eq id a b) refl

-- Three fields of a pool that are written one after the other.
module _ (id f g k : Str) (v w x : ℕ) (h : HostData) (short : IsShortId id) (room : HasRoom 3 h)
    (field_f : IsField f) (field_g : IsField g) (field_k : IsField k) (fits_v : v < 2 ^ 128)
    (fits_w : w < 2 ^ 128) (fits_x : x < 2 ^ 128) where
  abbrev pub written : HostData
  written =
      set_number (pool_key id k) x (set_number (pool_key id g) w (set_number (pool_key id f) v h))

  pub field-written :
      (j : Str)
      → IsField j
      → get_number (pool_key id j) written ≡ (
          if str_eq j k
          then x
          else if str_eq j g
          then w
          else if str_eq j f
          then v
          else get_number (pool_key id j) h)
  field-written j field_j =
      let h1 = set_number (pool_key id f) v h in
      let h2 = set_number (pool_key id g) w h1 in
      let room1 : HasRoom 2 h1 = set_number-HasRoom 2 (pool_key id f) v h room in
      let room2 : HasRoom 1 h2 = set_number-HasRoom 1 (pool_key id g) w h1 room1 in
      rw
        (
          field-set_field id x h2 short room2 j k field_j fits_x,
          field-set_field id w h1 short (omega arith) j g field_j fits_w,
          field-set_field id v h short (omega arith) j f field_j fits_v,
        )
        refl

  pub shares-written : (a : Str) → lp_shares id a written ≡ lp_shares id a h
  shares-written a =
      let h1 = set_number (pool_key id f) v h in
      let h2 = set_number (pool_key id g) w h1 in
      let room1 : HasRoom 2 h1 = set_number-HasRoom 2 (pool_key id f) v h room in
      let room2 : HasRoom 1 h2 = set_number-HasRoom 1 (pool_key id g) w h1 room1 in
      shares-set_field id x h2 short room2 a k
      ∙ shares-set_field id w h1 short (omega arith) a g
      ∙ shares-set_field id v h short (omega arith) a f

  pub room-written : (n : ℕ) → HasRoom (n + 3) h → HasRoom n written
  room-written n more =
      let h1 = set_number (pool_key id f) v h in
      let room1 : HasRoom (n + 2) h1 =
        set_number-HasRoom (n + 2) (pool_key id f) v h (omega arith) in
      set_number-HasRoom n (pool_key id k) x (set_number (pool_key id g) w h1)
        (set_number-HasRoom (n + 1) (pool_key id g) w h1 (omega arith))

  pub written-HasDistinctKeys : HasDistinctKeys h.state → HasDistinctKeys written.state
  written-HasDistinctKeys distinct =
      let h1 = set_number (pool_key id f) v h in
      let h2 = set_number (pool_key id g) w h1 in
      let room1 : HasRoom 2 h1 = set_number-HasRoom 2 (pool_key id f) v h room in
      let room2 : HasRoom 1 h2 = set_number-HasRoom 1 (pool_key id g) w h1 room1 in
      set_number-HasDistinctKeys (pool_key id k) x h2 room2 (
        set_number-HasDistinctKeys (pool_key id g) w h1 (omega arith)
          (set_number-HasDistinctKeys (pool_key id f) v h (omega arith) distinct))
