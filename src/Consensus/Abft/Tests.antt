-- ===== src/Consensus/Abft/Tests.antt =====
-- Runs of the consensus engine on the sample platform, and the theorems at those runs.
use unauthority_core.Base.{
  ℕ, ◌+◌, ◌*◌, ◌%◌, ◌≤◌, ◌<◌, ◌≡◌, ◌↔◌, refl, Str, codes, true, some, List, [], ◌∷◌, arith, str_eq,
  to_le_bytes, decimal, length, nat_key,
}
use unauthority_core.Base.Map.{lookup, contains, insert, replace, insert_new, erase}
use unauthority_core.Base.Outcome.{ok}
use unauthority_core.Sample.{toy}
use unauthority_core.Consensus.Abft.State.{
  Block, block_hash, ConsensusMessageType, ConsensusMessage, compute_keyed_mac, new_with_secret,
  verify_mac_with_secret, Engine,
}
use unauthority_core.Consensus.Abft.{
  new, set_shared_secret, update_validator_set, get_quorum_threshold, add_vote, trim_finalized,
  create_message, verify_message, pre_prepare, prepare, finalize_block, commit, is_byzantine_safe,
  is_leader, complete_view_change,
}
use unauthority_core.Consensus.Abft.Quorum.{quorum_numbers}
use unauthority_core.Consensus.Abft.Votes.{IsValid}
use unauthority_core.Consensus.Abft.Finality.{
  propose, set_validators, on_commit, step, run, stored_votes_authentic, Finalizes,
  commit_needs_quorum, commit_ignores_hash,
}
use unauthority_core.Consensus.Abft.Leader.{every_validator_leads}

abbrev six : List Str
six = codes "a" ∷ codes "b" ∷ codes "c" ∷ codes "d" ∷ codes "e" ∷ codes "f" ∷ []

abbrev four : List Str
four = codes "a" ∷ codes "b" ∷ codes "c" ∷ codes "d" ∷ []

abbrev start : Engine
start = update_validator_set four (set_shared_secret (9 ∷ []) (new (codes "a") 4))

abbrev proposal : Block
proposal = record {
  height = 1;
  timestamp = 5;
  payload = 1 ∷ [];
  proposer = codes "a";
  parent_hash = [];
}

abbrev vote_of : Str → Str → ConsensusMessage
vote_of sender hash = new_with_secret toy 5 ConsensusMessageType.commit 0 1 hash sender (9 ∷ [])

abbrev vote : Str → ConsensusMessage
vote sender = vote_of sender (block_hash toy proposal)

abbrev two_votes : Engine
two_votes =
    run toy
      ((4, set_validators four)
        ∷ (5, propose proposal)
        ∷ (6, on_commit (vote (codes "a")))
        ∷ (6, on_commit (vote (codes "b")))
        ∷ [])
      (set_shared_secret (9 ∷ []) (new (codes "a") 4))

-- All that a run computes with, under one name.
engine : Unit {0}
unfolding run step new set_shared_secret update_validator_set get_quorum_threshold add_vote
    trim_finalized create_message verify_message pre_prepare prepare finalize_block commit
    block_hash compute_keyed_mac new_with_secret verify_mac_with_secret str_eq to_le_bytes decimal
    lookup contains insert replace insert_new erase
engine = tt

-- The third vote of four finalizes the proposal.
run_third_vote :
    commit toy 7 (vote (codes "c")) two_votes
    ≡ (ok true, (commit toy 7 (vote (codes "c")) two_votes).1)
unfolding engine
run_third_vote = refl

-- Of six validators three are a quorum, and so are the other three.
quorum_of_six : get_quorum_threshold (update_validator_set six start) ≡ 3
unfolding engine
quorum_of_six = refl

quorum_numbers_example :
    let t = update_validator_set six start in
    let n = t.total_validators in
    let f = t.f_max_faulty in
    (is_byzantine_safe t ≡ true)
    × (n ≤ 3 * f + 3)
    × (get_quorum_threshold t ≡ 2 * f + 1)
    × (get_quorum_threshold t ≤ n)
    × ((n + f < 2 * get_quorum_threshold t) ↔ (n % 3 ≡ 1))
quorum_numbers_example = quorum_numbers six start (omega arith)

stored_votes_authentic_example : IsValid toy (
    run toy
      ((5, propose proposal) ∷ (6, on_commit (vote (codes "b"))) ∷ [])
      (set_shared_secret (9 ∷ []) (new (codes "a") 4)))
stored_votes_authentic_example =
    stored_votes_authentic toy (codes "a") 4 (9 ∷ [])
      ((5, propose proposal) ∷ (6, on_commit (vote (codes "b"))) ∷ [])

two_votes-IsValid : IsValid toy two_votes
two_votes-IsValid = stored_votes_authentic toy (codes "a") 4 (9 ∷ []) (
    (4, set_validators four)
    ∷ (5, propose proposal)
    ∷ (6, on_commit (vote (codes "a")))
    ∷ (6, on_commit (vote (codes "b")))
    ∷ [])

commit_needs_quorum_example :
    Finalizes toy (vote (codes "c")) two_votes (commit toy 7 (vote (codes "c")) two_votes).1
commit_needs_quorum_example =
    commit_needs_quorum toy 7 (vote (codes "c")) two_votes
      (commit toy 7 (vote (codes "c")) two_votes).1 two_votes-IsValid run_third_vote

-- A vote for another hash finalizes the proposal just as well.
commit_ignores_hash_example :
    (commit toy 7 (vote_of (codes "c") (codes "other")) two_votes).0
    ≡ (commit toy 7 (vote (codes "c")) two_votes).0
commit_ignores_hash_example =
    commit_ignores_hash toy 7 (vote_of (codes "c") (codes "other")) (vote (codes "c")) two_votes
      (unfold engine in refl) (unfold engine in refl) (unfold engine in refl)
      (unfold engine in refl)

every_validator_leads_example :
    (k : ℕ) × (k < length start.validator_set)
    × (let (r, s') = complete_view_change (5 + k) start in (r ≡ ok tt) × (is_leader s' ≡ some true))
unfolding update_validator_set set_shared_secret new
every_validator_leads_example = every_validator_leads start 5 0 refl (omega arith) (omega arith)
