-- ===== src/Consensus/Abft/Votes.antt =====
-- The votes that the engine stores: each authentic, for its sequence, and from a sender of its own.
use unauthority_core.Base.{
  ℕ, ◌≡◌, ◌≢◌, refl, Str, true, false, none, List, [], ◌∷◌, ◌++◌, arith, ◌==◌, ==_iff,
  if◌then◌else◌, str_eq, str_eq_iff, nat_key, any, inl, inr, Bool-cases, Option-cases,
}
use unauthority_core.Base.Map.{
  Map, lookup, insert, erase, lookup-insert, lookup-erase_ne, lookup-erase_self, HasDistinctKeys,
  insert-HasDistinctKeys, erase-HasDistinctKeys,
}
use unauthority_core.Crypto.{Platform}
use unauthority_core.Consensus.Abft.State.{ConsensusMessage, Engine, verify_mac_with_secret}
use unauthority_core.Consensus.Abft.{
  votes_at, is_from, add_vote, verify_message, prepare, finalize_block,
}

-- Votes for one sequence: authentic under the secret, and no two from one sender.
abbrev pub AreVotes : Platform → List ℕ → ℕ → List ConsensusMessage → Type 0
AreVotes p secret sequence [] = Unit
AreVotes p secret sequence (v ∷ vs) =
    (v.sequence ≡ sequence)
    × (verify_mac_with_secret p v secret ≡ true)
    × (any (is_from v.sender) vs ≡ false)
    × AreVotes p secret sequence vs

str_eq_comm : (s t : Str) → str_eq s t ≡ str_eq t s
str_eq_comm s t = ground (arith, str_eq_iff s t, str_eq_iff t s)

any-snoc :
    (sender : Str) (vs : List ConsensusMessage) (m : ConsensusMessage)
    → any (is_from sender) (vs ++ (m ∷ []))
      ≡ (if any (is_from sender) vs then true else is_from sender m)
any-snoc sender [] m = ground arith
any-snoc sender (v ∷ vs) m = ground (arith, any-snoc sender vs m)

module _ (p : Platform) (secret : List ℕ) (sequence : ℕ) (m : ConsensusMessage)
    (here : m.sequence ≡ sequence) (authentic : verify_mac_with_secret p m secret ≡ true) where
  snoc-AreVotes :
      (vs : List ConsensusMessage)
      → any (is_from m.sender) vs ≡ false
      → AreVotes p secret sequence vs
      → AreVotes p secret sequence (vs ++ (m ∷ []))
  snoc-AreVotes [] n a = (here, authentic, refl, tt)
  snoc-AreVotes (v ∷ vs) n a = (
    a.0,
    a.1,
    ground (arith, any-snoc v.sender vs m, str_eq_comm v.sender m.sender),
    snoc-AreVotes vs (ground arith) a.3,
  )

  pub add_vote-AreVotes :
      (vs : List ConsensusMessage)
      → AreVotes p secret sequence vs
      → AreVotes p secret sequence (add_vote m vs)
  unfolding add_vote
  add_vote-AreVotes vs a = elim (Bool-cases (any (is_from m.sender) vs)) [
    | inl again ↦ rw again a
    | inr first ↦ rw first (snoc-AreVotes vs first a)
  ]

-- All that the engine has stored, for the prepare and the commit phase.
abbrev pub StoresVotes : Platform → List ℕ → Map ℕ (List ConsensusMessage) → Type 0
StoresVotes p secret votes = (k : ℕ) → AreVotes p secret k (votes_at k votes)

pub record IsValid (p : Platform) (s : Engine) : Type 0 where
  pub distinct_prepared : HasDistinctKeys s.prepare_votes
  pub distinct_committed : HasDistinctKeys s.commit_votes
  pub prepared : StoresVotes p s.shared_secret s.prepare_votes
  pub committed : StoresVotes p s.shared_secret s.commit_votes

votes_at-insert :
    (j k : ℕ) (vs : List ConsensusMessage) (votes : Map ℕ (List ConsensusMessage))
    → votes_at j (insert k vs votes) ≡ (if j == k then vs else votes_at j votes)
votes_at-insert j k vs votes = ground (arith, lookup-insert j k vs votes)

insert-StoresVotes :
    (p : Platform) (secret : List ℕ) (votes : Map ℕ (List ConsensusMessage)) (m : ConsensusMessage)
    → verify_mac_with_secret p m secret ≡ true
    → StoresVotes p secret votes
    → StoresVotes p secret (insert m.sequence (add_vote m (votes_at m.sequence votes)) votes)
insert-StoresVotes p secret votes m authentic stored k = elim (Bool-cases (k == m.sequence)) [
  | inl same ↦
      let e : k ≡ m.sequence = (==_iff k m.sequence).0 same in
      rw (votes_at-insert k m.sequence (add_vote m (votes_at m.sequence votes)) votes, same)
        (rw e (
          add_vote-AreVotes p secret m.sequence m refl authentic (votes_at m.sequence votes)
            (stored m.sequence)))
  | inr other ↦
      rw (votes_at-insert k m.sequence (add_vote m (votes_at m.sequence votes)) votes, other)
        (stored k)
]

votes_at-none :
    (k : ℕ) (votes : Map ℕ (List ConsensusMessage)) → lookup k votes ≡ none → votes_at k votes ≡ []
votes_at-none k votes e = ground arith

votes_at-erase :
    (j k : ℕ) (votes : Map ℕ (List ConsensusMessage))
    → j ≢ k
    → votes_at j (erase k votes) ≡ votes_at j votes
votes_at-erase j k votes ne = ground (arith, lookup-erase_ne j k votes ne)

erase-StoresVotes :
    (p : Platform) (secret : List ℕ) (votes : Map ℕ (List ConsensusMessage)) (k : ℕ)
    → HasDistinctKeys votes
    → StoresVotes p secret votes
    → StoresVotes p secret (erase k votes)
erase-StoresVotes p secret votes k d stored j = elim (Bool-cases (j == k)) [
  | inl same ↦
      let e : j ≡ k = (==_iff j k).0 same in
      rw e (rw (votes_at-none k (erase k votes) (lookup-erase_self k votes d)) tt)
  | inr other ↦ rw (votes_at-erase j k votes (λ e. ground (arith, ==_iff j k))) (stored j)
]

module _ (p : Platform) (now : ℕ) (s : Engine) (v : IsValid p s) where
  with_prepare :
      (m : ConsensusMessage)
      → verify_mac_with_secret p m s.shared_secret ≡ true
      → IsValid p (record s {
        prepare_votes =
            insert m.sequence (add_vote m (votes_at m.sequence s.prepare_votes)) s.prepare_votes;
      })
  with_prepare m authentic = record {
    distinct_prepared = insert-HasDistinctKeys m.sequence _ s.prepare_votes v.distinct_prepared;
    distinct_committed = v.distinct_committed;
    prepared = insert-StoresVotes p s.shared_secret s.prepare_votes m authentic v.prepared;
    committed = v.committed;
  }

  pub with_commit :
      (m : ConsensusMessage)
      → verify_mac_with_secret p m s.shared_secret ≡ true
      → IsValid p (record s {
        commit_votes =
            insert m.sequence (add_vote m (votes_at m.sequence s.commit_votes)) s.commit_votes;
      })
  with_commit m authentic = record {
    distinct_prepared = v.distinct_prepared;
    distinct_committed = insert-HasDistinctKeys m.sequence _ s.commit_votes v.distinct_committed;
    prepared = v.prepared;
    committed = insert-StoresVotes p s.shared_secret s.commit_votes m authentic v.committed;
  }

  pub prepare-IsValid : (m : ConsensusMessage) → IsValid p (prepare p now m s).1
  unfolding prepare verify_message
  prepare-IsValid m = elim (Bool-cases (verify_mac_with_secret p m s.shared_secret)) [
    | inl authentic ↦ elim (Bool-cases (m.view == s.view)) [
      | inl current ↦ rw (authentic, current) (with_prepare m authentic)
      | inr other ↦ rw (authentic, other) v
    ]
    | inr forged ↦ rw forged v
  ]

  pub finalize_block-IsValid : (k : ℕ) → IsValid p (finalize_block p now k s).1
  unfolding finalize_block
  finalize_block-IsValid k = elim (Option-cases s.locked_block) [
    | inl free ↦ rw (free, finalize_block) v
    | inr (block, locked) ↦
        rw (locked, finalize_block)
          (record {
            distinct_prepared = erase-HasDistinctKeys k s.prepare_votes v.distinct_prepared;
            distinct_committed = erase-HasDistinctKeys k s.commit_votes v.distinct_committed;
            prepared =
                erase-StoresVotes p s.shared_secret s.prepare_votes k v.distinct_prepared
                  v.prepared;
            committed =
                erase-StoresVotes p s.shared_secret s.commit_votes k v.distinct_committed
                  v.committed;
          })
  ]
