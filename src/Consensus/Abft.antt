-- ===== src/Consensus/Abft.antt =====
-- crates/los-consensus/src/abft.rs, lines 203 to 471: the methods of the consensus engine. A usize
-- has 64 bits.
pub mod State
pub mod Quorum
pub mod Votes
pub mod Finality
pub mod Leader
mod Tests
use unauthority_core.Base.{
  ℕ, ◌+◌, ◌-◌, ◌*◌, ◌/◌, ◌%◌, ◌<◌, Str, codes, Bool, true, false, not, Option, none, some, List, [],
  ◌∷◌, ◌++◌, ◌==◌, ltb, leb, max, u64, u64_mod, if◌then◌else◌, str_eq, decimal, length, drop, any,
  get_elem?, nat_key,
}
use unauthority_core.Base.Map.{Map, lookup, insert, erase}
use unauthority_core.Base.Outcome.{ok, err, panic}
use unauthority_core.Crypto.{Platform}
use State.{
  Block, block_hash, ConsensusMessageType, ConsensusMessage, new_with_secret,
  verify_mac_with_secret, ValidatorState, Engine, AbftError, Reply,
}

-- `(n - 1) / 3`, where n - 1 wraps at n = 0.
abbrev pub max_faulty : ℕ → ℕ
max_faulty n = u64 (n + u64_mod - 1) / 3

unfoldable pub new : Str → ℕ → Engine
new validator_id total_validators = record {
  validator_id = validator_id;
  total_validators = total_validators;
  f_max_faulty = max_faulty total_validators;
  view = 0;
  sequence = 0;
  state = ValidatorState.normal;
  locked_block = none;
  locked_view = 0;
  pre_prepare_messages = [];
  prepare_votes = [];
  commit_votes = [];
  finalized_blocks = [];
  finality_timestamp = 0;
  block_timeout_ms = 3000;
  view_change_timeout_ms = 5000;
  blocks_finalized = 0;
  view_changes = 0;
  shared_secret = [];
  validator_set = [];
}

unfoldable pub set_shared_secret : List ℕ → Engine → Engine
set_shared_secret secret s = record s { shared_secret = secret }

unfoldable pub update_validator_set : List Str → Engine → Engine
update_validator_set validators s = record s {
  total_validators = max (length validators) 1;
  f_max_faulty = max_faulty (max (length validators) 1);
  validator_set = validators;
}

unfoldable pub get_quorum_threshold : Engine → ℕ
get_quorum_threshold s = u64 (u64 (2 * s.f_max_faulty) + 1)

abbrev pub is_view_changing : ValidatorState → Bool
is_view_changing ValidatorState.view_changing = true
is_view_changing _ = false

-- `entry(sequence).or_default()`
abbrev pub votes_at : ℕ → Map ℕ (List ConsensusMessage) → List ConsensusMessage
votes_at sequence votes = elim (lookup sequence votes) [ none ↦ [] | some v ↦ v ]

abbrev pub is_from : Str → ConsensusMessage → Bool
is_from sender v = str_eq v.sender sender

-- A vote is pushed unless its sender has one already.
unfoldable pub add_vote : ConsensusMessage → List ConsensusMessage → List ConsensusMessage
add_vote msg votes = if any (is_from msg.sender) votes then votes else votes ++ (msg ∷ [])

abbrev pub max_finalized_blocks : ℕ
max_finalized_blocks = 10_000

-- The loop that drops blocks from the front while there are more than 10,000.
unfoldable pub trim_finalized : List Block → List Block
trim_finalized blocks = drop (length blocks - max_finalized_blocks) blocks

module _ (p : Platform) (now : ℕ) where
  unfoldable pub create_message : ConsensusMessageType → Str → Engine → ConsensusMessage
  create_message msg_type hash s =
      new_with_secret p now msg_type s.view s.sequence hash s.validator_id s.shared_secret

  unfoldable pub verify_message : ConsensusMessage → Engine → Bool
  verify_message msg s = verify_mac_with_secret p msg s.shared_secret

  unfoldable pub pre_prepare : Block → Engine → Reply ConsensusMessage
  pre_prepare block s =
      if is_view_changing s.state
      then (err AbftError.in_view_change, s)
      else let s1 = record s { sequence = u64 (s.sequence + 1) } in
        let message = create_message ConsensusMessageType.pre_prepare (block_hash p block) s1 in
        (
          ok message,
          record s1 {
            pre_prepare_messages = insert s1.sequence message s1.pre_prepare_messages;
            locked_block = some block;
            locked_view = s1.view;
            state = ValidatorState.locked;
          },
        )

  unfoldable pub prepare : ConsensusMessage → Engine → Reply (Unit {0})
  prepare msg s =
      if not (verify_message msg s)
      then (err AbftError.bad_authentication, s)
      else if not (msg.view == s.view)
      then (err AbftError.wrong_view, s)
      else (
        ok tt,
        record s {
          prepare_votes =
              insert msg.sequence (add_vote msg (votes_at msg.sequence s.prepare_votes))
                s.prepare_votes;
        },
      )

  unfoldable pub finalize_block : ℕ → Engine → Reply Bool
  finalize_block sequence s = elim s.locked_block [
    | none ↦ (err AbftError.no_locked_block, s)
    | some block ↦ (
      ok true,
      record s {
        finalized_blocks = trim_finalized (s.finalized_blocks ++ (block ∷ []));
        blocks_finalized = u64 (s.blocks_finalized + 1);
        finality_timestamp = now;
        prepare_votes = erase sequence s.prepare_votes;
        commit_votes = erase sequence s.commit_votes;
        state = ValidatorState.normal;
        locked_block = none;
      },
    )
  ]

  unfoldable pub commit : ConsensusMessage → Engine → Reply Bool
  commit msg s =
      if not (verify_message msg s)
      then (err AbftError.bad_authentication, s)
      else let votes = add_vote msg (votes_at msg.sequence s.commit_votes) in
        let s1 = record s { commit_votes = insert msg.sequence votes s.commit_votes } in
        if leb (get_quorum_threshold s1) (length votes)
        then finalize_block msg.sequence s1
        else (ok false, s1)

  unfoldable pub initiate_view_change : Engine → Reply ConsensusMessage
  initiate_view_change s =
      let s1 = record s {
        state = ValidatorState.view_changing;
        view = u64 (s.view + 1);
        view_changes = u64 (s.view_changes + 1);
      } in
      (ok (create_message ConsensusMessageType.view_change [] s1), s1)

unfoldable pub can_commit : ℕ → Engine → Bool
can_commit sequence s = elim (lookup sequence s.prepare_votes) [
  | none ↦ false
  | some votes ↦ leb (get_quorum_threshold s) (length votes)
]

unfoldable pub complete_view_change : ℕ → Engine → Reply (Unit {0})
complete_view_change new_view s =
    if ltb new_view s.view then (err AbftError.invalid_new_view, s) else (
      ok tt,
      record s {
        view = new_view;
        state = ValidatorState.normal;
        prepare_votes = [];
        commit_votes = [];
      },
    )

-- `none` is the panic of a remainder by zero, where the set is empty and the count is 0.
unfoldable pub get_leader : ℕ → Engine → Option Str
get_leader view s =
    if length s.validator_set == 0
    then if s.total_validators == 0
      then none
      else some (codes "validator-" ++ decimal (view % s.total_validators))
    else get_elem? s.validator_set (view % length s.validator_set)

unfoldable pub is_leader : Engine → Option Bool
is_leader s = elim (get_leader s.view s) [
  | none ↦ none
  | some leader ↦ some (str_eq leader s.validator_id)
]

unfoldable pub is_byzantine_safe : Engine → Bool
is_byzantine_safe s = ltb (u64 (3 * s.f_max_faulty)) s.total_validators
