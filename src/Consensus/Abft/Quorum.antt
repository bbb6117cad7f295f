-- ===== src/Consensus/Abft/Quorum.antt =====
-- The numbers of the engine: faulty validators, the quorum, and what two quorums share.
use unauthority_core.Base.{◌+◌, ◌*◌, ◌%◌, ◌^◌, ◌≤◌, ◌<◌, ◌≡◌, ◌↔◌, Str, List, true, arith, length}
use unauthority_core.Consensus.Abft.{update_validator_set, get_quorum_threshold, is_byzantine_safe}
use unauthority_core.Consensus.Abft.State.{Engine}

-- With fewer than 2^62 validators, of which the engine counts n (one, if there are none): the engine
-- is Byzantine safe (3f < n) and n ≤ 3f + 3 for its number f of faulty validators; the quorum is
-- 2f + 1, which is at most n. Two quorums have more than n + f votes in sum, which is what it takes
-- for them to share a validator that is not faulty, exactly if n is 1 modulo 3.
pub quorum_numbers :
    (validators : List Str) (s : Engine)
    → length validators < 2 ^ 62
    → let t = update_validator_set validators s in
      let n = t.total_validators in
      let f = t.f_max_faulty in
      (is_byzantine_safe t ≡ true)
      × (n ≤ 3 * f + 3)
      × (get_quorum_threshold t ≡ 2 * f + 1)
      × (get_quorum_threshold t ≤ n)
      × ((n + f < 2 * get_quorum_threshold t) ↔ (n % 3 ≡ 1))
unfolding update_validator_set is_byzantine_safe get_quorum_threshold
quorum_numbers validators s small =
    (ground arith, omega arith, omega arith, omega arith, ((λ h. omega arith), (λ h. omega arith)))
