-- ===== src/Voting/Tests.antt =====
-- Votes of three validators, and the theorem at them.
use unauthority_core.Base.{
  ◌*◌, ◌<◌, ◌≡◌, ◌≢◌, refl, codes, str_eq, str_ltb, str_key, true, false, List, [], ◌∷◌, arith,
}
use unauthority_core.Base.Map.{lookup, contains, insert, replace, insert_new}
use unauthority_core.Rewards.State.{newton, isqrt}
use unauthority_core.Voting.{
  min_stake_cil, calculate_voting_power, new_vote, register_validator, update_stake,
  update_vote_preference, sum_power, active, calculate_proposal_consensus,
}
use unauthority_core.Voting.Majority.{Op, registers, restakes, votes, run, consensus_is_unique}

-- All that a run computes with, under one name.
engine : Unit {0}
unfolding calculate_voting_power new_vote register_validator update_stake update_vote_preference
    sum_power calculate_proposal_consensus run newton isqrt lookup contains insert replace
    insert_new str_eq str_ltb
engine = tt

abbrev three : List Op
three =
    registers (codes "a") (4 * min_stake_cil) (codes "yes") true
    ∷ registers (codes "b") min_stake_cil (codes "no") true
    ∷ registers (codes "c") min_stake_cil (codes "no") true
    ∷ restakes (codes "a") (9 * min_stake_cil)
    ∷ votes (codes "c") (codes "yes")
    ∷ []

-- The powers are the roots of the stakes: 30 and 10 and 10 million.
yes_wins : calculate_proposal_consensus (codes "yes") (run three []) ≡ (40_000_000, 8_000, true)
unfolding engine
yes_wins = refl

yes_reaches : (calculate_proposal_consensus (codes "yes") (run three [])).2 ≡ true
unfolding engine
yes_reaches = refl

yes_is_not_no : codes "yes" ≢ codes "no"
yes_is_not_no e = absurd (ground (arith, e))

consensus_is_unique_example :
    (sum_power active (run three [])
      < 2 * (calculate_proposal_consensus (codes "yes") (run three [])).0)
    × ((calculate_proposal_consensus (codes "no") (run three [])).2 ≡ false)
consensus_is_unique_example =
    consensus_is_unique three (codes "yes") (codes "no") (omega arith) yes_is_not_no yes_reaches
