-- ===== src/Voting/Majority.antt =====
-- crates/los-consensus/src/voting.rs: no two proposals reach consensus.
use unauthority_core.Base.{
  ℕ, suc, ◌+◌, ◌*◌, ◌/◌, ◌^◌, ◌≤◌, ◌<◌, ◌≡◌, ◌≢◌, refl, Str, str_key, str_eq, str_eq_iff, str_ltb,
  Bool, true, false, Bool-cases, some, List, [], ◌∷◌, arith, inl, inr, Option-cases, ltb, min, u32,
  u128, length,
}
use native.Mathlib.Nat.{mul-le-mul, le-div_iff_mul-le}
use unauthority_core.Base.Map.{lookup, insert, replace, insert_new, insert_old, insert_absent}
use unauthority_core.Base.Map.Size.{length-insert}
use unauthority_core.Rewards.State.{isqrt}
use unauthority_core.Rewards.Isqrt.{isqrt-IsRoot}
use unauthority_core.Voting.{
  ValidatorVote, VotingSystem, calculate_voting_power, new_vote, register_validator, update_stake,
  update_vote_preference, sum_power, prefers, active, calculate_proposal_consensus,
  max_stake_for_voting_cil, min_stake_cil,
}

-- The methods that change the system, with their arguments.
pub data Op : Type 0 where
  registers : Str → ℕ → Str → Bool → Op
  restakes : Str → ℕ → Op
  votes : Str → Str → Op
  clears : Op

abbrev pub step : Op → VotingSystem → VotingSystem
step (registers address stake preference is_active) s =
    (register_validator address stake preference is_active s).1
step (restakes address stake) s = (update_stake address stake s).1
step (votes address preference) s = (update_vote_preference address preference s).1
step clears s = []

unfoldable pub run : List Op → VotingSystem → VotingSystem
run [] s = s
run (op ∷ ops) s = run ops (step op s)

small_root : (r n : ℕ) → r * r ≤ n → n < 2 ^ 72 → r < 2 ^ 36
small_root r n le small = elim (Bool-cases (ltb r (2 ^ 36))) [
  | inl yes_small ↦ ground arith
  | inr big ↦
      let beyond : 2 ^ 36 ≤ r = ground arith in
      let at_least : 2 ^ 36 * 2 ^ 36 ≤ r * r = mul-le-mul beyond beyond in
      absurd (omega (arith, at_least))
]

power_small : (stake : ℕ) → calculate_voting_power stake < 2 ^ 36
unfolding calculate_voting_power
power_small stake = elim (Bool-cases (ltb stake min_stake_cil)) [
  | inl little ↦ rw (calculate_voting_power, little) (omega arith)
  | inr enough ↦
      let clamped = min stake max_stake_for_voting_cil in
      let (below, above) = isqrt-IsRoot clamped (omega arith) in
      rw (calculate_voting_power, enough) (small_root (isqrt clamped) clamped below (omega arith))
]

-- Every power is small.
abbrev AllSmall : VotingSystem → Type 0
AllSmall [] = Unit {0}
AllSmall ((k, v) ∷ s) = (v.voting_power < 2 ^ 36) × AllSmall s

replace-AllSmall :
    (address : Str) (v : ValidatorVote) (s : VotingSystem)
    → v.voting_power < 2 ^ 36
    → AllSmall s
    → AllSmall (replace address v s)
unfolding replace
replace-AllSmall address v [] small all = all
replace-AllSmall address v ((k, w) ∷ s) small (first, all) = elim (Bool-cases (str_eq address k)) [
  | inl same ↦ rw same (small, all)
  | inr other ↦ rw other (first, replace-AllSmall address v s small all)
]

insert_new-AllSmall :
    (address : Str) (v : ValidatorVote) (s : VotingSystem)
    → v.voting_power < 2 ^ 36
    → AllSmall s
    → AllSmall (insert_new address v s)
unfolding insert_new
insert_new-AllSmall address v [] small all = (small, tt)
insert_new-AllSmall address v ((k, w) ∷ s) small (first, all) =
    elim (Bool-cases (str_ltb address k)) [
      | inl before ↦ rw before (small, (first, all))
      | inr later ↦ rw later (first, insert_new-AllSmall address v s small all)
    ]

insert-AllSmall :
    (address : Str) (v : ValidatorVote) (s : VotingSystem)
    → v.voting_power < 2 ^ 36
    → AllSmall s
    → AllSmall (insert address v s)
insert-AllSmall address v s small all = elim (Option-cases (lookup address s)) [
  | inl new ↦ rw (insert_absent address v s new) (insert_new-AllSmall address v s small all)
  | inr (w, old) ↦ rw (insert_old address v w s old) (replace-AllSmall address v s small all)
]

found-small :
    (address : Str) (v : ValidatorVote) (s : VotingSystem)
    → lookup address s ≡ some v
    → AllSmall s
    → v.voting_power < 2 ^ 36
unfolding lookup
found-small address v [] e all = absurd (ground arith)
found-small address v ((k, w) ∷ s) e (first, all) = elim (Bool-cases (str_eq address k)) [
  | inl same ↦ let here : some w ≡ some v = rw same at e in ground (arith, first)
  | inr other ↦
      let there : lookup address s ≡ some v = rw other at e in found-small address v s there all
]

-- The system after `n` operations: at most `n` validators, each with a small power.
abbrev IsBounded : ℕ → VotingSystem → Type 0
IsBounded n s = (length s ≤ n) × AllSmall s

inserted :
    (n : ℕ) (address : Str) (v : ValidatorVote) (s : VotingSystem)
    → v.voting_power < 2 ^ 36
    → IsBounded n s
    → IsBounded (n + 1) (insert address v s)
inserted n address v s small (few, all) =
    (omega (arith, length-insert address v s), insert-AllSmall address v s small all)

kept : (n : ℕ) (s : VotingSystem) → IsBounded n s → IsBounded (n + 1) s
kept n s (few, all) = (omega arith, all)

step-IsBounded :
    (op : Op) (n : ℕ) (s : VotingSystem) → IsBounded n s → IsBounded (n + 1) (step op s)
unfolding register_validator update_stake update_vote_preference new_vote
step-IsBounded (registers address stake preference is_active) n s b =
    elim (Bool-cases (ltb max_stake_for_voting_cil stake)) [
      | inl over ↦ rw (step, register_validator, over) (kept n s b)
      | inr within ↦
          rw (step, register_validator, within)
            (inserted n address (new_vote address stake preference is_active) s (power_small stake)
              b)
    ]
step-IsBounded (restakes address stake) n s b = elim (Option-cases (lookup address s)) [
  | inl missing ↦ rw (step, update_stake, missing) (kept n s b)
  | inr (v, found) ↦
      rw (step, update_stake, found)
        (inserted n address
          (record v { staked_amount_cil = stake; voting_power = calculate_voting_power stake }) s
          (power_small stake) b)
]
step-IsBounded (votes address preference) n s b = elim (Option-cases (lookup address s)) [
  | inl missing ↦ rw (step, update_vote_preference, missing) (kept n s b)
  | inr (v, found) ↦
      rw (step, update_vote_preference, found)
        (inserted n address (record v { vote_preference = preference }) s
          (found-small address v s found b.1) b)
]
step-IsBounded clears n s b = (omega arith, tt)

run-IsBounded :
    (ops : List Op) (n : ℕ) (s : VotingSystem)
    → IsBounded n s
    → IsBounded (n + length ops) (run ops s)
unfolding run
run-IsBounded [] n s b = let none_more : n + 0 ≡ n = omega arith in rw none_more b
run-IsBounded (op ∷ ops) n s b =
    let more : (n + 1) + length ops ≡ n + suc (length ops) = omega arith in
    rw⁻¹ more (run-IsBounded ops (n + 1) (step op s) (step-IsBounded op n s b))

-- A sum of powers does not overflow.
sum_small :
    (keep : ValidatorVote → Bool) (s : VotingSystem)
    → length s < 2 ^ 64
    → AllSmall s
    → sum_power keep s ≤ length s * 2 ^ 36
unfolding sum_power
sum_small keep [] few all = omega arith
sum_small keep ((k, v) ∷ s) few (first, all) = ground (arith, sum_small keep s (omega arith) all)

-- The votes for two proposals are different votes.
two_sums :
    (p q : Str) (s : VotingSystem)
    → str_eq p q ≡ false
    → length s < 2 ^ 64
    → AllSmall s
    → sum_power (prefers p) s + sum_power (prefers q) s ≤ sum_power active s
unfolding sum_power
two_sums p q [] distinct few all = omega arith
two_sums p q ((k, v) ∷ s) distinct few (first, all) =
    let ih = two_sums p q s distinct (omega arith) all in
    let sp = sum_small (prefers p) s (omega arith) all in
    let sq = sum_small (prefers q) s (omega arith) all in
    let sa = sum_small active s (omega arith) all in
    let not_both : (str_eq v.vote_preference p ≡ true) → str_eq v.vote_preference q ≡ false = λ e.
      let is_p : v.vote_preference ≡ p = (str_eq_iff v.vote_preference p).0 e in rw is_p distinct in
    let room_p : u128 (v.voting_power + sum_power (prefers p) s)
        ≡ v.voting_power + sum_power (prefers p) s =
      omega (arith, sp, few, first) in
    let room_q : u128 (v.voting_power + sum_power (prefers q) s)
        ≡ v.voting_power + sum_power (prefers q) s =
      omega (arith, sq, few, first) in
    let room_a : u128 (v.voting_power + sum_power active s) ≡ v.voting_power + sum_power active s =
      omega (arith, sa, few, first) in
    rw (room_p, room_q, room_a) (ground (arith, ih, not_both))

percentage : (n t : ℕ) → ltb 5_000 (u32 (n / t)) ≡ true → 5_001 ≤ n / t
percentage n t e = let over : 5_000 < u32 (n / t) = ground arith in omega arith

-- What the test on the basis points means.
over_half :
    (proposal_id : Str) (s : VotingSystem)
    → length s < 2 ^ 64
    → AllSmall s
    → (calculate_proposal_consensus proposal_id s).2 ≡ true
    → (0 < sum_power active s)
      × (5_001 * sum_power active s ≤ sum_power (prefers proposal_id) s * 10_000)
unfolding calculate_proposal_consensus
over_half proposal_id s few all reached =
    let v = sum_power (prefers proposal_id) s in
    let t = sum_power active s in
    let bound = sum_small (prefers proposal_id) s few all in
    let exact : u128 (v * 10_000) ≡ v * 10_000 = omega (arith, bound) in
    elim (Bool-cases (ltb 0 t)) [
      | inl some_power ↦
          let positive : 0 < t = ground arith in
          let enough : 5_001 ≤ (v * 10_000) / t =
            percentage (v * 10_000) t
              (rw⁻¹ reached (rw (calculate_proposal_consensus, exact, some_power) refl)) in
          (positive, (le-div_iff_mul-le {k = t} {x = 5_001} {y = v * 10_000} positive).0 enough)
      | inr no_power ↦
          let nothing : ltb 5_000 0 ≡ true =
            rw⁻¹ reached (rw (calculate_proposal_consensus, no_power) refl) in
          absurd (ground arith)
    ]

-- After any run of fewer than 2^64 operations from an empty system: a proposal that reaches consensus
-- has more than half of the active voting power, and no other proposal reaches it.
pub consensus_is_unique :
    (ops : List Op) (p q : Str)
    → length ops < 2 ^ 64
    → p ≢ q
    → let s = run ops [] in
      (calculate_proposal_consensus p s).2 ≡ true
      → (sum_power active s < 2 * (calculate_proposal_consensus p s).0)
        × ((calculate_proposal_consensus q s).2 ≡ false)
unfolding calculate_proposal_consensus
consensus_is_unique ops p q short distinct reached =
    let s = run ops [] in
    let (few, all) = run-IsBounded ops 0 [] (omega arith, tt) in
    let (positive, half) = over_half p s (omega arith) all reached in
    let apart : str_eq p q ≡ false = ground (arith, str_eq_iff p q) in
    let sums = two_sums p q s apart (omega arith) all in
    (
      omega (arith, positive, half),
      elim (Bool-cases ((calculate_proposal_consensus q s).2)) [
        | inl both ↦
            let (positive_q, other) = over_half q s (omega arith) all both in
            absurd (omega (arith, positive, half, other, sums))
        | inr alone ↦ alone
      ],
    )
