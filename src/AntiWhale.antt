-- ===== src/AntiWhale.antt =====
-- crates/los-core/src/anti_whale.rs: the limits on transactions and burns of one address. `now` is the
-- system clock in seconds. Numbers wrap on overflow in the release build.
pub mod Runs
pub mod Fees
pub mod Burns
mod Tests
use unauthority_core.Base.{
  ℕ, ◌+◌, ◌-◌, ◌*◌, ◌^◌, Str, str_key, Bool, true, false, Option, none, some, [], ◌∷◌, leb, ltb,
  if◌then◌else◌, u32, u64, u64_mod, saturating_sub,
}
use unauthority_core.Base.Map.{Map, lookup, insert}
use unauthority_core.Base.Outcome.{Outcome, ok, err}

pub record AntiWhaleConfig : Type 0 where
  pub max_tx_per_block : ℕ  -- u32
  pub fee_scale_multiplier : ℕ  -- u64
  pub max_burn_per_block : ℕ  -- u64

pub record AddressActivity : Type 0 where
  pub tx_count : ℕ  -- u32
  pub total_burned : ℕ  -- u64
  pub last_block : ℕ  -- u64
  pub fee_multiplier : ℕ  -- u64
  pub window_start : ℕ  -- u64

pub record AntiWhaleEngine : Type 0 where
  pub config : AntiWhaleConfig
  pub address_activity : Map Str AddressActivity
  pub current_block : ℕ  -- u64

-- The only error, and its three numbers: what is burned, the amount, the limit.
pub data BurnError : Type 0 where
  burn_limit_exceeded : ℕ → ℕ → ℕ → BurnError

abbrev pub default_config : AntiWhaleConfig
default_config = record {
  max_tx_per_block = 5;
  fee_scale_multiplier = 2;
  max_burn_per_block = 1_000;
}

abbrev pub new_engine : AntiWhaleConfig → AntiWhaleEngine
new_engine config = record { config = config; address_activity = []; current_block = 0 }

abbrev pub activity_window_secs : ℕ
activity_window_secs = 60

abbrev pub saturating_mul : ℕ → ℕ → ℕ
saturating_mul a b = if ltb (a * b) u64_mod then a * b else u64_mod - 1

abbrev pub saturating_pow : ℕ → ℕ → ℕ
saturating_pow a n = if ltb (a ^ n) u64_mod then a ^ n else u64_mod - 1

-- The window of the activity is over.
abbrev pub is_over : ℕ → AddressActivity → Bool
is_over now a = leb activity_window_secs (saturating_sub now a.window_start)

unfoldable pub maybe_reset_activity : ℕ → AddressActivity → AddressActivity
maybe_reset_activity now a =
    if is_over now a
    then record a { tx_count = 0; total_burned = 0; fee_multiplier = 1; window_start = now }
    else a

abbrev pub map_activities :
    (AddressActivity → AddressActivity) → Map Str AddressActivity → Map Str AddressActivity
map_activities f [] = []
map_activities f ((address, a) ∷ m) = (address, f a) ∷ map_activities f m

unfoldable pub open_block : ℕ → ℕ → AddressActivity → AddressActivity
open_block now block_number a =
    if ltb a.last_block block_number
    then record {
      tx_count = 0;
      total_burned = 0;
      last_block = block_number;
      fee_multiplier = 1;
      window_start = now;
    }
    else a

unfoldable pub new_block : ℕ → ℕ → AntiWhaleEngine → AntiWhaleEngine
new_block now block_number e = record e {
  address_activity = map_activities (open_block now block_number) e.address_activity;
  current_block = block_number;
}

-- The fee for `excess` transactions over the limit, and one more.
abbrev pub scaled : AntiWhaleConfig → ℕ → ℕ
scaled config tx_count =
    saturating_pow config.fee_scale_multiplier (u32 ((tx_count - config.max_tx_per_block) + 1))

unfoldable pub estimate_fee : ℕ → Str → ℕ → AntiWhaleEngine → ℕ
estimate_fee now address base_fee e = elim (lookup address e.address_activity) [
  | none ↦ saturating_mul base_fee 1
  | some a ↦ saturating_mul base_fee (
      if is_over now a
      then 1
      else if leb e.config.max_tx_per_block a.tx_count
      then scaled e.config a.tx_count
      else 1)
]

-- `entry(address).or_insert_with(..)`, and the reset.
unfoldable pub current_activity : ℕ → Str → AntiWhaleEngine → AddressActivity
current_activity now address e = elim (lookup address e.address_activity) [
  | none ↦ maybe_reset_activity now (record {
    tx_count = 0;
    total_burned = 0;
    last_block = e.current_block;
    fee_multiplier = 1;
    window_start = now;
  })
  | some a ↦ maybe_reset_activity now a
]

unfoldable pub charge : AntiWhaleConfig → AddressActivity → AddressActivity
charge config a = record a {
  fee_multiplier =
      if leb config.max_tx_per_block a.tx_count then scaled config a.tx_count else a.fee_multiplier;
  tx_count = u32 (a.tx_count + 1);
}

unfoldable pub register_transaction : ℕ → Str → ℕ → AntiWhaleEngine → ℕ × AntiWhaleEngine
register_transaction now address base_fee e =
    let a = charge e.config (current_activity now address e) in
    (
      saturating_mul base_fee a.fee_multiplier,
      record e { address_activity = insert address a e.address_activity },
    )

unfoldable pub register_burn :
    ℕ → Str → ℕ → AntiWhaleEngine → Outcome BurnError (Unit {0}) × AntiWhaleEngine
register_burn now address amount e =
    let a = current_activity now address e in
    if ltb e.config.max_burn_per_block (u64 (a.total_burned + amount))
    then (
      err (burn_limit_exceeded a.total_burned amount e.config.max_burn_per_block),
      record e { address_activity = insert address a e.address_activity },
    )
    else (
      ok tt,
      record e {
        address_activity =
            insert address (record a { total_burned = u64 (a.total_burned + amount) })
              e.address_activity;
      },
    )

unfoldable pub reset_block_activity : ℕ → AntiWhaleEngine → AntiWhaleEngine
reset_block_activity now e = record e {
  address_activity =
      map_activities
        (λ a. record a { tx_count = 0; total_burned = 0; fee_multiplier = 1; window_start = now })
        e.address_activity;
}
