-- ===== src/Consensus/Abft/Finality.antt =====
-- When the engine finalizes a block, and what it keeps over any run of its methods.
use unauthority_core.Base.{
  ℕ, ◌+◌, ◌-◌, ◌≤◌, ◌≡◌, refl, Str, Bool, true, false, Option, none, some, List, [], ◌∷◌, ◌++◌,
  arith, leb, ltb, if◌then◌else◌, nat_key, length, length-drop, length-append, inl, inr, Bool-cases,
  Option-cases,
}
use unauthority_core.Base.Map.{lookup, insert, erase, lookup-erase_self, insert-HasDistinctKeys}
use unauthority_core.Base.Outcome.{Outcome, ok, err}
use unauthority_core.Crypto.{Platform}
use unauthority_core.Consensus.Abft.State.{
  Block, ConsensusMessage, Engine, AbftError, verify_mac_with_secret,
}
use unauthority_core.Consensus.Abft.Votes.{
  AreVotes, IsValid, add_vote-AreVotes, with_commit, prepare-IsValid, finalize_block-IsValid,
}
use unauthority_core.Consensus.Abft.{
  new, is_view_changing, set_shared_secret, update_validator_set, get_quorum_threshold, votes_at,
  add_vote, trim_finalized, max_finalized_blocks, verify_message, pre_prepare, prepare,
  finalize_block, commit, initiate_view_change, complete_view_change,
}

module _ (p : Platform) (now : ℕ) (s : Engine) (v : IsValid p s) where
  commit-IsValid : (m : ConsensusMessage) → IsValid p (commit p now m s).1
  unfolding commit verify_message
  commit-IsValid m = elim (Bool-cases (verify_mac_with_secret p m s.shared_secret)) [
    | inr forged ↦ rw forged v
    | inl authentic ↦
        let s1 : Engine = record s {
          commit_votes =
              insert m.sequence (add_vote m (votes_at m.sequence s.commit_votes)) s.commit_votes;
        } in
        elim (Bool-cases (
          leb (get_quorum_threshold s1)
            (length (add_vote m (votes_at m.sequence s.commit_votes))))) [
              | inl reached ↦
                  rw (authentic, reached)
                    (finalize_block-IsValid p now s1 (with_commit p now s v m authentic) m.sequence)
              | inr short ↦ rw (authentic, short) (with_commit p now s v m authentic)
            ]
  ]

-- The methods that change an engine whose secret is set.
pub data Op : Type 0 where
  propose : Block → Op
  on_prepare on_commit : ConsensusMessage → Op
  start_view_change : Op
  end_view_change : ℕ → Op
  set_validators : List Str → Op

unfoldable pub step : Platform → ℕ → Op → Engine → Engine
step p now (propose block) s = (pre_prepare p now block s).1
step p now (on_prepare m) s = (prepare p now m s).1
step p now (on_commit m) s = (commit p now m s).1
step p now start_view_change s = (initiate_view_change p now s).1
step p now (end_view_change view) s = (complete_view_change view s).1
step p now (set_validators validators) s = update_validator_set validators s

-- Each call comes with the time of the clock.
unfoldable pub run : Platform → List (ℕ × Op) → Engine → Engine
run p [] s = s
run p ((now, op) ∷ ops) s = run p ops (step p now op s)

no_votes-IsValid :
    (p : Platform) (s : Engine) → s.prepare_votes ≡ [] → s.commit_votes ≡ [] → IsValid p s
unfolding lookup
no_votes-IsValid p s e1 e2 = record {
  distinct_prepared = rw e1 tt;
  distinct_committed = rw e2 tt;
  prepared = λ k. rw e1 tt;
  committed = λ k. rw e2 tt;
}

pre_prepare-IsValid :
    (p : Platform) (now : ℕ) (block : Block) (s : Engine)
    → IsValid p s
    → IsValid p (pre_prepare p now block s).1
unfolding pre_prepare
pre_prepare-IsValid p now block s v = elim (Bool-cases (is_view_changing s.state)) [
  | inl changing ↦ rw (changing, pre_prepare) v
  | inr free ↦
      rw (free, pre_prepare)
        (record {
          distinct_prepared = v.distinct_prepared;
          distinct_committed = v.distinct_committed;
          prepared = v.prepared;
          committed = v.committed;
        })
]

complete_view_change-IsValid :
    (p : Platform) (view : ℕ) (s : Engine) → IsValid p s → IsValid p (complete_view_change view s).1
unfolding complete_view_change lookup
complete_view_change-IsValid p view s v = elim (Bool-cases (ltb view s.view)) [
  | inl old ↦ rw old v
  | inr fresh ↦ rw fresh (record {
    distinct_prepared = tt;
    distinct_committed = tt;
    prepared = λ k. tt;
    committed = λ k. tt;
  })
]

step-IsValid :
    (p : Platform) (now : ℕ) (op : Op) (s : Engine) → IsValid p s → IsValid p (step p now op s)
unfolding step
step-IsValid p now (propose block) s v = pre_prepare-IsValid p now block s v
step-IsValid p now (on_prepare m) s v = prepare-IsValid p now s v m
step-IsValid p now (on_commit m) s v = commit-IsValid p now s v m
step-IsValid p now start_view_change s v =
    unfold initiate_view_change in
    record {
      distinct_prepared = v.distinct_prepared;
      distinct_committed = v.distinct_committed;
      prepared = v.prepared;
      committed = v.committed;
    }
step-IsValid p now (end_view_change view) s v = complete_view_change-IsValid p view s v
step-IsValid p now (set_validators validators) s v =
    unfold update_validator_set in
    record {
      distinct_prepared = v.distinct_prepared;
      distinct_committed = v.distinct_committed;
      prepared = v.prepared;
      committed = v.committed;
    }

run-IsValid :
    (p : Platform) (ops : List (ℕ × Op)) (s : Engine) → IsValid p s → IsValid p (run p ops s)
unfolding run
run-IsValid p [] s v = v
run-IsValid p ((now, op) ∷ ops) s v =
    run-IsValid p ops (step p now op s) (step-IsValid p now op s v)

start-IsValid :
    (p : Platform) (id : Str) (n : ℕ) (secret : List ℕ)
    → IsValid p (set_shared_secret secret (new id n))
unfolding set_shared_secret new lookup
start-IsValid p id n secret = record {
  distinct_prepared = tt;
  distinct_committed = tt;
  prepared = λ k. tt;
  committed = λ k. tt;
}

-- After any run of a new engine whose secret has been set, the stored prepare and commit votes of
-- each sequence are authentic under the engine's secret, belong to that sequence, and come from
-- senders that are all different.
pub stored_votes_authentic :
    (p : Platform) (id : Str) (n : ℕ) (secret : List ℕ) (ops : List (ℕ × Op))
    → IsValid p (run p ops (set_shared_secret secret (new id n)))
stored_votes_authentic p id n secret ops =
    run-IsValid p ops (set_shared_secret secret (new id n)) (start-IsValid p id n secret)

length-trim_finalized :
    (blocks : List Block) → length (trim_finalized blocks) ≤ max_finalized_blocks
unfolding trim_finalized
length-trim_finalized blocks =
    omega (arith, length-drop (length blocks - max_finalized_blocks) blocks)

-- What has happened when a commit reports that it has finalized a block.
pub record Finalizes (p : Platform) (m : ConsensusMessage) (s s' : Engine) : Type 0 where
  pub block : Block
  pub was_locked : s.locked_block ≡ some block
  pub votes :
      AreVotes p s.shared_secret m.sequence (add_vote m (votes_at m.sequence s.commit_votes))
  pub quorum : get_quorum_threshold s ≤ length (add_vote m (votes_at m.sequence s.commit_votes))
  pub appended : s'.finalized_blocks ≡ trim_finalized (s.finalized_blocks ++ (block ∷ []))
  pub bounded : length s'.finalized_blocks ≤ max_finalized_blocks
  pub unlocked : s'.locked_block ≡ none
  pub votes_gone : lookup m.sequence s'.commit_votes ≡ none

module _ (p : Platform) (now : ℕ) (m : ConsensusMessage) (s s' : Engine) where
  finalize_block-true :
      (k : ℕ) (t : Engine)
      → finalize_block p now k t ≡ (ok true, s')
      → (block : Block) × (t.locked_block ≡ some block)
        × (s'.finalized_blocks ≡ trim_finalized (t.finalized_blocks ++ (block ∷ [])))
        × (s'.locked_block ≡ none)
        × (s'.commit_votes ≡ erase k t.commit_votes)
  unfolding finalize_block
  finalize_block-true k t e = elim (Option-cases t.locked_block) [
    | inl free ↦ absurd (ground arith)
    | inr (block, locked) ↦ (block, locked, ground arith, ground arith, ground arith)
  ]

  abbrev after_vote : Engine
  after_vote = record s {
    commit_votes =
        insert m.sequence (add_vote m (votes_at m.sequence s.commit_votes)) s.commit_votes;
  }

  commit-true :
      commit p now m s ≡ (ok true, s')
      → (verify_mac_with_secret p m s.shared_secret ≡ true)
        × (get_quorum_threshold after_vote
            ≤ length (add_vote m (votes_at m.sequence s.commit_votes)))
        × (finalize_block p now m.sequence after_vote ≡ (ok true, s'))
  unfolding commit verify_message
  commit-true e = ground arith

  same_threshold : {k : ℕ} → get_quorum_threshold after_vote ≤ k → get_quorum_threshold s ≤ k
  unfolding get_quorum_threshold
  same_threshold h = h

length-snoc :
    (vs : List ConsensusMessage) (m : ConsensusMessage) → length (vs ++ (m ∷ [])) ≡ length vs + 1
length-snoc vs m = omega (arith, length-append vs (m ∷ []))

length-add_vote :
    (m n : ConsensusMessage) (s : Engine)
    → m.sequence ≡ n.sequence
    → m.sender ≡ n.sender
    → length (add_vote m (votes_at m.sequence s.commit_votes))
      ≡ length (add_vote n (votes_at n.sequence s.commit_votes))
unfolding add_vote
length-add_vote m n s e1 e2 = ground (
  arith,
  length-snoc (votes_at m.sequence s.commit_votes) m,
  length-snoc (votes_at n.sequence s.commit_votes) n,
)

-- If the stored votes are authentic, a commit that reports a finalized block has seen a quorum of
-- authentic messages of one sequence from different senders, whatever their type, view and block
-- hash; the block is the one that was locked, it is appended to the finalized blocks, of which at
-- most 10,000 are kept, the lock is released, and the commit votes of the sequence are gone.
pub commit_needs_quorum :
    (p : Platform) (now : ℕ) (m : ConsensusMessage) (s s' : Engine)
    → IsValid p s
    → commit p now m s ≡ (ok true, s')
    → Finalizes p m s s'
commit_needs_quorum p now m s s' v e =
    let (authentic, quorum, finalized) = commit-true p now m s s' e in
    let (block, locked, appended, unlocked, erased) =
      finalize_block-true p now m s s' m.sequence (after_vote p now m s s') finalized in
    record {
      block = block;
      was_locked = locked;
      votes =
          add_vote-AreVotes p s.shared_secret m.sequence m refl authentic
            (votes_at m.sequence s.commit_votes) (v.committed m.sequence);
      quorum = same_threshold p now m s s' quorum;
      appended = appended;
      bounded = rw appended (length-trim_finalized (s.finalized_blocks ++ (block ∷ [])));
      unlocked = unlocked;
      votes_gone = rw erased (
          lookup-erase_self m.sequence (after_vote p now m s s').commit_votes
            (insert-HasDistinctKeys m.sequence _ s.commit_votes v.distinct_committed));
    }

-- What `finalize_block` answers.
abbrev answer : Option Block → Outcome AbftError Bool
answer none = err AbftError.no_locked_block
answer (some block) = ok true

commit-answer :
    (p : Platform) (now : ℕ) (m : ConsensusMessage) (s : Engine)
    → verify_mac_with_secret p m s.shared_secret ≡ true
    → (commit p now m s).0 ≡ (
        if leb (get_quorum_threshold s) (length (add_vote m (votes_at m.sequence s.commit_votes)))
        then answer s.locked_block
        else ok false)
unfolding commit verify_message finalize_block get_quorum_threshold
commit-answer p now m s h = ground arith

-- Whether a commit message finalizes, and whatever else `commit` answers, depends only on the
-- message's sequence and sender: two authentic messages that agree in those get the same answer,
-- though they may name different block hashes, views and message types.
pub commit_ignores_hash :
    (p : Platform) (now : ℕ) (m n : ConsensusMessage) (s : Engine)
    → verify_mac_with_secret p m s.shared_secret ≡ true
    → verify_mac_with_secret p n s.shared_secret ≡ true
    → m.sequence ≡ n.sequence
    → m.sender ≡ n.sender
    → (commit p now m s).0 ≡ (commit p now n s).0
commit_ignores_hash p now m n s hm hn same_sequence same_sender =
    rw
      (
        commit-answer p now m s hm,
        commit-answer p now n s hn,
        length-add_vote m n s same_sequence same_sender,
      )
      refl
