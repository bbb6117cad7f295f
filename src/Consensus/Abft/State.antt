-- ===== src/Consensus/Abft/State.antt =====
-- crates/los-consensus/src/abft.rs, lines 15 to 201 and 473 to 484: blocks, authenticated messages,
-- the state of the engine.
use unauthority_core.Base.{ℕ, Str, codes, Bool, Option, List, ◌++◌, str_eq, to_le_bytes, decimal}
use unauthority_core.Base.Map.{Map}
use unauthority_core.Base.Outcome.{Outcome}
use unauthority_core.Crypto.{Platform}

pub record Block : Type 0 where
  pub height : ℕ  -- u64
  pub timestamp : ℕ  -- u64
  pub payload : List ℕ  -- the field `data`
  pub proposer : Str
  pub parent_hash : Str

unfoldable pub block_hash : Platform → Block → Str
block_hash p b = p.lower_hex (
    p.keccak256 (
      decimal b.height
      ++ (to_le_bytes 8 b.timestamp ++ (b.payload ++ (b.proposer ++ b.parent_hash)))))

pub data ConsensusMessageType : Type 0 where
  pre_prepare prepare commit view_change : ConsensusMessageType

-- The name that `{:?}` prints.
abbrev pub debug_name : ConsensusMessageType → Str
debug_name ConsensusMessageType.pre_prepare = codes "PrePrepare"
debug_name ConsensusMessageType.prepare = codes "Prepare"
debug_name ConsensusMessageType.commit = codes "Commit"
debug_name ConsensusMessageType.view_change = codes "ViewChange"

pub record ConsensusMessage : Type 0 where
  pub msg_type : ConsensusMessageType
  pub view : ℕ  -- u64
  pub sequence : ℕ  -- u64
  pub block_hash : Str
  pub sender : Str
  pub timestamp : ℕ  -- u64
  pub mac : List ℕ

module _ (p : Platform) where
  unfoldable pub compute_keyed_mac : List ℕ → ConsensusMessageType → ℕ → ℕ → Str → Str → ℕ → List ℕ
  compute_keyed_mac secret msg_type view sequence block_hash sender timestamp = p.keccak256 (
      secret
      ++ (debug_name msg_type
          ++ (to_le_bytes 8 view
              ++ (to_le_bytes 8 sequence ++ (block_hash ++ (sender ++ to_le_bytes 8 timestamp))))))

  -- `now` is the system clock.
  unfoldable pub new_with_secret :
      ℕ → ConsensusMessageType → ℕ → ℕ → Str → Str → List ℕ → ConsensusMessage
  new_with_secret now msg_type view sequence block_hash sender shared_secret = record {
    msg_type = msg_type;
    view = view;
    sequence = sequence;
    block_hash = block_hash;
    sender = sender;
    timestamp = now;
    mac = compute_keyed_mac shared_secret msg_type view sequence block_hash sender now;
  }

  unfoldable pub verify_mac_with_secret : ConsensusMessage → List ℕ → Bool
  verify_mac_with_secret m shared_secret =
      str_eq
        (compute_keyed_mac shared_secret m.msg_type m.view m.sequence m.block_hash m.sender
          m.timestamp)
        m.mac

pub data ValidatorState : Type 0 where
  normal view_changing locked : ValidatorState

-- `ABFTConsensus`
pub record Engine : Type 0 where
  pub validator_id : Str
  pub total_validators : ℕ  -- usize
  pub f_max_faulty : ℕ  -- usize
  pub view : ℕ  -- u64
  pub sequence : ℕ  -- u64
  pub state : ValidatorState
  pub locked_block : Option Block
  pub locked_view : ℕ  -- u64
  pub pre_prepare_messages : Map ℕ ConsensusMessage
  pub prepare_votes : Map ℕ (List ConsensusMessage)
  pub commit_votes : Map ℕ (List ConsensusMessage)
  pub finalized_blocks : List Block
  pub finality_timestamp : ℕ  -- u64
  pub block_timeout_ms : ℕ  -- u64
  pub view_change_timeout_ms : ℕ  -- u64
  pub blocks_finalized : ℕ  -- u64
  pub view_changes : ℕ  -- u64
  pub shared_secret : List ℕ
  pub validator_set : List Str

pub data AbftError : Type 0 where
  in_view_change bad_authentication wrong_view no_locked_block invalid_new_view : AbftError

-- A method on `&mut self`.
abbrev pub Reply : Type 0 → Type 0
Reply A = Outcome AbftError A × Engine
