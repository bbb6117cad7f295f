-- ===== src/Ledger/State.antt =====
-- crates/los-core/src/lib.rs, lines 248 to 322, and crates/los-core/src/distribution.rs: the state
-- of the ledger, and the form of a method on `&mut self`.
use unauthority_core.Base.{
  ℕ, ◌*◌, ◌/◌, Str, codes, Bool, true, false, none, some, [], ◌==◌, checked_mul, if◌then◌else◌,
}
use unauthority_core.Base.Map.{Map, Set}
use unauthority_core.Base.Outcome.{Outcome, ok, err, panic}
use unauthority_core.Ledger.Block.{Block, cil_per_los}

abbrev pub public_supply_cap : ℕ
public_supply_cap = 21_158_413 * cil_per_los

pub record DistributionState : Type 0 where
  pub remaining_supply : ℕ  -- u128
  pub total_burned_usd : ℕ  -- u128

unfoldable pub new_distribution : DistributionState
new_distribution = record { remaining_supply = public_supply_cap; total_burned_usd = 0 }

-- `checked_mul(…).unwrap_or(0)`
unfoldable pub calculate_yield : DistributionState → ℕ → ℕ
calculate_yield d burn_amount_usd =
    if d.remaining_supply == 0 then 0 else elim (checked_mul burn_amount_usd d.remaining_supply) [
      | none ↦ 0 / public_supply_cap
      | some numerator ↦ numerator / public_supply_cap
    ]

pub record AccountState : Type 0 where
  pub head : Str
  pub balance : ℕ  -- u128
  pub block_count : ℕ  -- u64
  pub is_validator : Bool

-- The state that an account has before its first block.
abbrev pub empty_account : AccountState
empty_account = record { head = codes "0"; balance = 0; block_count = 0; is_validator = false }

pub data ProcessResult : Type 0 where
  applied duplicate : Str → ProcessResult

abbrev pub is_new : ProcessResult → Bool
is_new (applied h) = true
is_new (duplicate h) = false

pub record Ledger : Type 0 where
  pub accounts : Map Str AccountState
  pub blocks : Map Str Block
  pub distribution : DistributionState
  pub claimed_sends : Set Str
  pub accumulated_fees_cil : ℕ  -- u128

unfoldable pub new_ledger : Ledger
unfolding new_distribution
new_ledger = record {
  accounts = [];
  blocks = [];
  distribution = new_distribution;
  claimed_sends = [];
  accumulated_fees_cil = 0;
}

-- A constructor for each `Err` of `process_block`.
pub data LedgerError : Type 0 where
  invalid_pow invalid_signature invalid_key_hex empty_key not_owner : LedgerError
  account_missing chain_error future_timestamp past_timestamp : LedgerError
  supply_exhausted anti_whale fee_too_low amount_overflow insufficient_funds : LedgerError
  not_a_send wrong_recipient amount_mismatch already_received send_not_found : LedgerError
  empty_link bad_deploy_link bad_code_hash deploy_fee_too_low bad_call_link : LedgerError
  call_target_missing call_fee_too_low no_evidence zero_penalty slash_key_hex : LedgerError
  not_a_validator stake_too_low signer_missing : LedgerError

-- A method on `&mut self`: what was written before an early return stays written.
abbrev pub Method : Type 0 → Type 0
Method A = Ledger → Outcome LedgerError A × Ledger

module _ {A : Type 0} where
  abbrev pub pure : A → Method A
  pure a l = (ok a, l)

  abbrev pub gets : (Ledger → A) → Method A
  gets f l = (ok (f l), l)

  abbrev pub lift : Outcome LedgerError A → Method A
  lift r l = (r, l)

-- A statement of a method: a test that returns early with an error, a check that is a function of
-- its own, or a write.
pub data Statement : Type 0 where
  ensure : Bool → LedgerError → Statement
  check : Outcome LedgerError (Unit {0}) → Statement
  modify : (Ledger → Ledger) → Statement

infixl 5 ◌>>=◌ ◌>>◌
abbrev pub ◌>>=◌ : {A B : Type 0} → Method A → (A → Method B) → Method B
◌>>=◌ m f l =
    let (r, l') = m l in elim r [ ok a ↦ f a l' | err e ↦ (err e, l') | panic ↦ (panic, l') ]

abbrev pub ◌>>◌ : {B : Type 0} → Statement → Method B → Method B
◌>>◌ (ensure c e) k l = if c then k l else (err e, l)
◌>>◌ (check r) k l = elim r [ ok _ ↦ k l | err e ↦ (err e, l) | panic ↦ (panic, l) ]
◌>>◌ (modify f) k l = k (f l)
