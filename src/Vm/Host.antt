-- ===== src/Vm/Host.antt =====
-- crates/los-vm/src/host.rs: what the host functions do to the data of one execution. Texts pass
-- through the memory of the guest; a text that is cut inside a character is no text.
use unauthority_core.Base.{
  ℕ, ◌-◌, Str, is_char_boundary, Bool, true, false, not, ◌&&◌, Option, none, some, List, [], ◌∷◌,
  ◌++◌, ◌==◌, leb, ltb, if◌then◌else◌, length, take, get_elem?, str_key,
}
use unauthority_core.Base.Map.{Map, Set, lookup, contains, insert, erase}

abbrev pub max_state_value_size : ℕ
max_state_value_size = 262_144

abbrev pub max_state_key_size : ℕ
max_state_key_size = 1_024

abbrev pub max_transfers : ℕ
max_transfers = 64

abbrev pub max_state_keys : ℕ
max_state_keys = 1_024

-- The parts of the data that the contracts read and write.
pub record HostData : Type 0 where
  pub state : Map Str Str
  pub dirty_keys : Set Str
  pub transfers : List (Str × ℕ)
  pub caller : Str
  pub self_address : Str
  pub balance : ℕ  -- u128
  pub timestamp : ℕ  -- u64
  pub args : List Str

-- A text of which at most `max` bytes are read.
unfoldable pub read_text : ℕ → Str → Option Str
read_text max s =
    if leb (length s) max
    then some s
    else if is_char_boundary s max
    then some (take max s)
    else none

unfoldable pub host_set_state : Str → Str → HostData → HostData
host_set_state key value h = elim (read_text max_state_key_size key) [
  | none ↦ h
  | some k ↦
      if leb max_state_keys (length h.dirty_keys) && not (contains k h.dirty_keys)
      then h
      else record h {
        state = insert k (take max_state_value_size value) h.state;
        dirty_keys = insert k tt h.dirty_keys;
      }
]

-- `none` for the answer -1.
unfoldable pub host_get_state : Str → HostData → Option Str
host_get_state key h = elim (read_text max_state_key_size key) [
  | none ↦ none
  | some k ↦ lookup k h.state
]

unfoldable pub host_del_state : Str → HostData → HostData
host_del_state key h = elim (read_text max_state_key_size key) [
  | none ↦ h
  | some k ↦ record h { state = erase k h.state; dirty_keys = insert k tt h.dirty_keys }
]

abbrev is_empty : Str → Bool
is_empty [] = true
is_empty (b ∷ s) = false

-- The code that the host answers: 0 success, 1 insufficient balance, 2 invalid address, 3 too many.
unfoldable pub host_transfer : Str → ℕ → HostData → ℕ × HostData
unfolding read_text
host_transfer recipient amount h = elim (read_text 256 recipient) [
  | none ↦ (2, h)
  | some r ↦
      if is_empty r
      then (2, h)
      else if amount == 0
      then (0, h)
      else if leb max_transfers (length h.transfers)
      then (3, h)
      else if ltb h.balance amount
      then (1, h)
      else (
        0,
        record h { balance = h.balance - amount; transfers = h.transfers ++ ((r, amount) ∷ []) },
      )
]

unfoldable pub host_get_arg : ℕ → HostData → Option Str
host_get_arg idx h = get_elem? h.args idx
