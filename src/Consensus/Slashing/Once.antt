-- ===== src/Consensus/Slashing/Once.antt =====
-- A proposal that has been executed is never executed again.
use unauthority_core.Base.{
  ℕ, ◌^◌, ◌<◌, ◌≡◌, refl, Str, str_eq, str_eq_iff, Bool, true, false, Option, List, [], ◌∷◌, arith,
  any, str_key, inl, inr, Bool-cases, Option-cases,
}
use unauthority_core.Base.Map.{lookup, contains, lookup-insert}
use unauthority_core.Base.Outcome.{ok, err, panic}
use unauthority_core.Consensus.Slashing.State.{
  ViolationType, SlashProposal, SlashingManager, SlashError, Reply, new_manager,
}
use unauthority_core.Consensus.Slashing.{
  update_block_height, remove_validator, make_proposal_id, propose_slash, update_stake,
  mark_executed, conclude, with_confirmation, put_proposal, confirm_slash,
}
use unauthority_core.Consensus.Slashing.Confirm.{
  execution, unknown, again, waiting, concluded, confirm-cases,
}
use unauthority_core.Consensus.Slashing.Confirmations.{IsDone, slash_by_quorum}
use unauthority_core.Consensus.Slashing.Proposals.{
  on_profile-pending, register-pending, execute_slash-pending,
}
use unauthority_core.Consensus.Slashing.Runs.{
  Op, registers, signs, double_signs, participates, observes, checks_downtime, bans, unstakes,
  reaches_height, proposes, confirms, removes, clears, step, run,
}

-- Whether a call deletes all proposals.
abbrev pub is_clear : Op → Bool
is_clear clears = true
is_clear _ = false

put-IsDone :
    (id k : Str) (proposal : SlashProposal) (s : SlashingManager)
    → (k ≡ id → proposal.executed ≡ true)
    → IsDone id s
    → IsDone id (put_proposal k proposal s)
put-IsDone id k proposal s done (old, at_id, old_done) = elim (Bool-cases (str_eq id k)) [
  | inl same ↦
      let same_key : id ≡ k = (str_eq_iff id k).0 same in
      (
        proposal,
        ground (arith, lookup-insert id k proposal s.pending_proposals),
        done (ground arith),
      )
  | inr other ↦ (old, ground (arith, lookup-insert id k proposal s.pending_proposals), old_done)
]

mark_executed-keeps :
    (id k : Str) (s : SlashingManager) → IsDone id s → IsDone id (mark_executed k s)
unfolding mark_executed
mark_executed-keeps id k s done = elim (Option-cases (lookup k s.pending_proposals)) [
  | inl missing ↦ rw (mark_executed, missing) done
  | inr (proposal, found) ↦
      rw (mark_executed, found)
        (put-IsDone id k (record proposal { executed = true }) s (λ e. refl) done)
]

conclude-keeps : (id k : Str) (r : Reply (Unit {0})) → IsDone id r.1 → IsDone id (conclude k r).1
conclude-keeps id k (ok x, s) done = mark_executed-keeps id k s done
conclude-keeps id k (err e, s) done = done
conclude-keeps id k (panic, s) done = done

confirm-keeps :
    (id k confirmer : Str) (n now : ℕ) (stake : Option ℕ) (s : SlashingManager)
    → IsDone id s
    → IsDone id (confirm_slash k confirmer n now stake s).1
confirm-keeps id k confirmer n now stake s done =
    let (old, at_id, old_done) = done in
    elim (confirm-cases k confirmer n now stake s) [
      | unknown e ↦ rw e done
      | again proposal found was_done e ↦
          rw e (put-IsDone id k (update_stake stake proposal) s (λ same. was_done) done)
      | waiting proposal found pending e ↦ rw e (
          put-IsDone id k (with_confirmation confirmer stake proposal) s
            (λ same. absurd (ground arith)) done)
      | concluded proposal found pending reached e ↦ rw e (
          conclude-keeps id k (execution confirmer stake now k proposal s) (
            rw execute_slash-pending (
              put-IsDone id k (with_confirmation confirmer stake proposal) s
                (λ same. absurd (ground arith)) done)))
    ]

propose-keeps :
    (id offender : Str) (offense : ViolationType) (evidence proposer : Str) (now : ℕ)
    (s : SlashingManager)
    → IsDone id s
    → IsDone id (propose_slash offender offense evidence proposer now s).1
unfolding propose_slash contains
propose-keeps id offender offense evidence proposer now s (old, at_id, old_done) =
    elim (Bool-cases (contains offender s.validators)) [
      | inr missing ↦ rw (propose_slash, missing) (old, at_id, old_done)
      | inl registered ↦
          elim (Option-cases
            (lookup (make_proposal_id offender evidence now) s.pending_proposals)) [
              | inr (other, exists) ↦
                  rw (propose_slash, registered, contains, exists) (old, at_id, old_done)
              | inl new ↦
                  rw (propose_slash, registered, contains, new)
                    (put-IsDone id (make_proposal_id offender evidence now) _ s
                      (λ same. absurd (ground (arith, same))) (old, at_id, old_done))
            ]
    ]

step-keeps :
    (id : Str) (op : Op) (s : SlashingManager)
    → is_clear op ≡ false
    → IsDone id s
    → IsDone id (step op s)
unfolding step update_block_height remove_validator
step-keeps id (registers a) s h done = rw register-pending done
step-keeps id (signs a height hash now) s h done = rw on_profile-pending done
step-keeps id (double_signs a height stake now) s h done = rw on_profile-pending done
step-keeps id (participates a height now) s h done = rw on_profile-pending done
step-keeps id (observes a) s h done = rw on_profile-pending done
step-keeps id (checks_downtime a height stake now) s h done = rw on_profile-pending done
step-keeps id (bans a reason) s h done = rw on_profile-pending done
step-keeps id (unstakes a) s h done = rw on_profile-pending done
step-keeps id (reaches_height height) s h done = done
step-keeps id (proposes offender offense evidence proposer now) s h done =
    propose-keeps id offender offense evidence proposer now s done
step-keeps id (confirms k confirmer n now stake) s h done =
    confirm-keeps id k confirmer n now stake s done
step-keeps id (removes a) s h done = done
step-keeps id clears s h done = absurd (ground arith)

run-keeps :
    (id : Str) (ops : List Op) (s : SlashingManager)
    → any is_clear ops ≡ false
    → IsDone id s
    → IsDone id (run ops s)
unfolding run
run-keeps id [] s h done = done
run-keeps id (op ∷ ops) s h done =
    run-keeps id ops (step op s) (ground arith) (step-keeps id op s (ground arith) done)

confirm-done :
    (id confirmer : Str) (n now : ℕ) (stake : Option ℕ) (s : SlashingManager)
    → IsDone id s
    → (confirm_slash id confirmer n now stake s).0 ≡ err SlashError.already_executed
unfolding confirm_slash
confirm-done id confirmer n now stake s (proposal, found, done) =
    rw (confirm_slash, found, done) refl

-- A proposal is executed once: in a run of a new manager, if a confirmation reports that the
-- proposal has been executed (with a number of validators below 2^63), then after any further run
-- that does not clear the manager, every confirmation of it is refused as already executed.
pub executes_once :
    (before after : List Op) (id confirmer later : Str) (n now m thereafter : ℕ)
    (stake new_stake : Option ℕ) (s' : SlashingManager)
    → n < 2 ^ 63
    → confirm_slash id confirmer n now stake (run before new_manager) ≡ (ok true, s')
    → any is_clear after ≡ false
    → (confirm_slash id later m thereafter new_stake (run after s')).0
      ≡ err SlashError.already_executed
executes_once before after id confirmer later n now m thereafter stake new_stake s' small e kept =
    confirm-done id later m thereafter new_stake (run after s')
      (run-keeps id after s' kept (slash_by_quorum before id confirmer n now stake s' small e).done)
