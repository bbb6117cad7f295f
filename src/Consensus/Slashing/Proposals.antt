-- ===== src/Consensus/Slashing/Proposals.antt =====
-- The proposals that the manager stores: under their ids, each confirmed by different validators.
use unauthority_core.Base.{
  ℕ, ◌≡◌, refl, Str, str_eq, str_eq_iff, true, false, Option, List, [], ◌∷◌, ◌++◌, arith,
  if◌then◌else◌, any, str_key, inl, inr, Bool-cases, Option-cases,
}
use unauthority_core.Base.Map.{lookup, contains}
use unauthority_core.Base.Map.Every.{Every, insert-Every}
use unauthority_core.Base.Outcome.{ok, err, panic, Outcome-cases}
use unauthority_core.Consensus.Slashing.State.{
  ViolationType, SlashProposal, SlashingManager, Reply, new_manager,
}
use unauthority_core.Consensus.Slashing.{
  Change, on_profile, register_validator, update_block_height, remove_validator, clear,
  make_proposal_id, propose_slash, update_stake, add_confirmation, execute_slash, mark_executed,
  conclude, with_confirmation, put_proposal, confirm_slash,
}
use unauthority_core.Consensus.Slashing.Confirm.{
  execution, unknown, again, waiting, concluded, confirm-cases, discard-snd,
}
use unauthority_core.Consensus.Slashing.Runs.{
  Op, registers, signs, double_signs, participates, observes, checks_downtime, bans, unstakes,
  reaches_height, proposes, confirms, removes, clears, step, run,
}

-- No name stands twice.
abbrev pub AreDistinct : List Str → Type 0
AreDistinct [] = Unit
AreDistinct (a ∷ names) = (any (str_eq a) names ≡ false) × AreDistinct names

any-snoc :
    (a b : Str) (names : List Str)
    → any (str_eq a) (names ++ (b ∷ [])) ≡ (if any (str_eq a) names then true else str_eq a b)
any-snoc a b [] = ground arith
any-snoc a b (c ∷ names) = ground (arith, any-snoc a b names)

snoc-AreDistinct :
    (b : Str) (names : List Str)
    → any (str_eq b) names ≡ false
    → AreDistinct names
    → AreDistinct (names ++ (b ∷ []))
snoc-AreDistinct b [] new d = (refl, tt)
snoc-AreDistinct b (a ∷ names) new d = (
  ground (arith, any-snoc a b names, str_eq_iff a b, str_eq_iff b a),
  snoc-AreDistinct b names (ground arith) d.1,
)

pub add_confirmation-AreDistinct :
    (b : Str) (names : List Str) → AreDistinct names → AreDistinct (add_confirmation b names)
unfolding add_confirmation
add_confirmation-AreDistinct b names d = elim (Bool-cases (any (str_eq b) names)) [
  | inl known ↦ rw (add_confirmation, known) d
  | inr new ↦ rw (add_confirmation, new) (snoc-AreDistinct b names new d)
]

-- A stored proposal is stored under its id, and is confirmed by different validators.
pub record IsProposal (id : Str) (proposal : SlashProposal) : Type 0 where
  pub identified : proposal.proposal_id ≡ id
  pub distinct : AreDistinct proposal.confirmations

abbrev pub HasProposals : SlashingManager → Type 0
HasProposals s = Every IsProposal s.pending_proposals

pub on_profile-pending :
    {A : Type 0} (a : Str) (change : Change A) (s : SlashingManager)
    → (on_profile a change s).1.pending_proposals ≡ s.pending_proposals
unfolding on_profile
on_profile-pending a change s = elim (Option-cases (lookup a s.validators)) [
  | inl missing ↦ rw (on_profile, missing) refl
  | inr (profile, found) ↦ elim (Outcome-cases (change profile)) [
    | inl ((x, profile', events), e) ↦ rw (on_profile, found, e) refl
    | inr (inl (error, e)) ↦ rw (on_profile, found, e) refl
    | inr (inr e) ↦ rw (on_profile, found, e) refl
  ]
]

pub register-pending :
    (a : Str) (s : SlashingManager)
    → (register_validator a s).pending_proposals ≡ s.pending_proposals
unfolding register_validator
register-pending a s = ground arith

pub execute_slash-pending :
    (offense : ViolationType) (offender : Str) (stake now : ℕ) (s : SlashingManager)
    → (execute_slash offense offender stake now s).1.pending_proposals ≡ s.pending_proposals
unfolding execute_slash
execute_slash-pending ViolationType.extended_downtime offender stake now s =
    rw (execute_slash, discard-snd) (on_profile-pending offender _ s)
execute_slash-pending ViolationType.double_signing offender stake now s =
    rw (execute_slash, discard-snd) (on_profile-pending offender _ s)
execute_slash-pending ViolationType.fraudulent_transaction offender stake now s =
    rw (execute_slash, discard-snd) (on_profile-pending offender _ s)

confirmed-IsProposal :
    (id confirmer : Str) (stake : Option ℕ) (proposal : SlashProposal)
    → IsProposal id proposal
    → IsProposal id (with_confirmation confirmer stake proposal)
confirmed-IsProposal id confirmer stake proposal v = record {
  identified = v.identified;
  distinct = add_confirmation-AreDistinct confirmer proposal.confirmations v.distinct;
}

mark_executed-HasProposals :
    (id : Str) (s : SlashingManager) → HasProposals s → HasProposals (mark_executed id s)
unfolding mark_executed
mark_executed-HasProposals id s v = elim (Option-cases (lookup id s.pending_proposals)) [
  | inl missing ↦ rw (mark_executed, missing) v
  | inr (proposal, found) ↦
      rw (mark_executed, found)
        (insert-Every IsProposal id (record proposal { executed = true }) s.pending_proposals
          (record {
            identified = (v id proposal found).identified;
            distinct = (v id proposal found).distinct;
          })
          v)
]

conclude-HasProposals :
    (id : Str) (r : Reply (Unit {0})) → HasProposals r.1 → HasProposals (conclude id r).1
conclude-HasProposals id (ok x, s) v = mark_executed-HasProposals id s v
conclude-HasProposals id (err e, s) v = v
conclude-HasProposals id (panic, s) v = v

same_pending-HasProposals :
    (s t : SlashingManager)
    → t.pending_proposals ≡ s.pending_proposals
    → HasProposals s
    → HasProposals t
same_pending-HasProposals s t e v = rw e v

confirm-HasProposals :
    (id confirmer : Str) (n now : ℕ) (stake : Option ℕ) (s : SlashingManager)
    → HasProposals s
    → HasProposals (confirm_slash id confirmer n now stake s).1
confirm-HasProposals id confirmer n now stake s v =
    elim (confirm-cases id confirmer n now stake s) [
      | unknown e ↦ rw e v
      | again proposal found done e ↦ rw e (
          insert-Every IsProposal id (update_stake stake proposal) s.pending_proposals
            (record {
              identified = (v id proposal found).identified;
              distinct = (v id proposal found).distinct;
            })
            v)
      | waiting proposal found pending e ↦ rw e (
          insert-Every IsProposal id _ s.pending_proposals
            (confirmed-IsProposal id confirmer stake proposal (v id proposal found)) v)
      | concluded proposal found pending reached e ↦ rw e (
          conclude-HasProposals id (execution confirmer stake now id proposal s) (
            same_pending-HasProposals
              (put_proposal id (with_confirmation confirmer stake proposal) s)
              (execution confirmer stake now id proposal s).1
              (execute_slash-pending proposal.offense_type proposal.offender _ now _)
              (insert-Every IsProposal id _ s.pending_proposals
                (confirmed-IsProposal id confirmer stake proposal (v id proposal found)) v)))
    ]

propose-HasProposals :
    (offender : Str) (offense : ViolationType) (evidence proposer : Str) (now : ℕ)
    (s : SlashingManager)
    → HasProposals s
    → HasProposals (propose_slash offender offense evidence proposer now s).1
unfolding propose_slash
propose-HasProposals offender offense evidence proposer now s v =
    elim (Bool-cases (contains offender s.validators)) [
      | inr missing ↦ rw (propose_slash, missing) v
      | inl registered ↦
          elim (Bool-cases
            (contains (make_proposal_id offender evidence now) s.pending_proposals)) [
              | inl exists ↦ rw (propose_slash, registered, exists) v
              | inr new ↦
                  rw (propose_slash, registered, new)
                    (insert-Every IsProposal _ _ s.pending_proposals
                      (record { identified = refl; distinct = (refl, tt) }) v)
            ]
    ]

pub new_manager-HasProposals : HasProposals new_manager
unfolding new_manager lookup
new_manager-HasProposals id proposal e = absurd (ground arith)

step-HasProposals : (op : Op) (s : SlashingManager) → HasProposals s → HasProposals (step op s)
unfolding step update_block_height remove_validator clear
step-HasProposals (registers a) s v = rw (register-pending a s) v
step-HasProposals (signs a height hash now) s v = rw on_profile-pending v
step-HasProposals (double_signs a height stake now) s v = rw on_profile-pending v
step-HasProposals (participates a height now) s v = rw on_profile-pending v
step-HasProposals (observes a) s v = rw on_profile-pending v
step-HasProposals (checks_downtime a height stake now) s v = rw on_profile-pending v
step-HasProposals (bans a reason) s v = rw on_profile-pending v
step-HasProposals (unstakes a) s v = rw on_profile-pending v
step-HasProposals (reaches_height height) s v = v
step-HasProposals (proposes offender offense evidence proposer now) s v =
    propose-HasProposals offender offense evidence proposer now s v
step-HasProposals (confirms id confirmer n now stake) s v =
    confirm-HasProposals id confirmer n now stake s v
step-HasProposals (removes a) s v = v
step-HasProposals clears s v = new_manager-HasProposals

pub run-HasProposals :
    (ops : List Op) (s : SlashingManager) → HasProposals s → HasProposals (run ops s)
unfolding run
run-HasProposals [] s v = v
run-HasProposals (op ∷ ops) s v = run-HasProposals ops (step op s) (step-HasProposals op s v)
