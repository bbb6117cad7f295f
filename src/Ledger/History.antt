-- ===== src/Ledger/History.antt =====
-- Runs of the ledger: any sequence of calls of `process_block` and `claim_accumulated_fees`.
use unauthority_core.Base.{
  ℕ, ◌+◌, ◌≤◌, ◌≡◌, ◌≢◌, refl, Str, List, [], ◌∷◌, arith, str_key, inl, inr, ◌⊎◌,
}
use unauthority_core.Base.Map.{contains, lookup}
use unauthority_core.Base.Map.Weigh.{weigh}
use unauthority_core.Base.Outcome.{Outcome, ok, err, panic}
use unauthority_core.Crypto.{Platform}
use unauthority_core.Ledger.Block.{Block}
use unauthority_core.Ledger.State.{
  Ledger, LedgerError, ProcessResult, applied, duplicate, new_ledger, new_distribution,
  public_supply_cap,
}
use unauthority_core.Ledger.Process.{process_block, claim_accumulated_fees}
use unauthority_core.Ledger.Supply.{balance_of, held}
use unauthority_core.Ledger.Conservation.{IsValid, process_block_conserves}
use unauthority_core.Ledger.Frame.{process_block_atomic}

pub data Event : Type 0 where
  process : ℕ → Block → Event
  claim_fees : Event

unfoldable pub step : Platform → Event → Ledger → Ledger
step p (process now b) l = (process_block p now b l).1
step p claim_fees l = (claim_accumulated_fees l).1

unfoldable pub run : Platform → List Event → Ledger → Ledger
run p [] l = l
run p (e ∷ es) l = run p es (step p e l)

applied-cases :
    (r : Outcome LedgerError ProcessResult)
    → ((h : Str) × (r ≡ ok (applied h))) ⊎ ((h : Str) → r ≢ ok (applied h))
applied-cases (ok (applied h)) = inl (h, refl)
applied-cases (ok (duplicate h)) = inr (λ k e. cc)
applied-cases (err e) = inr (λ k q. cc)
applied-cases panic = inr (λ k q. cc)

-- A step that the ledger takes: none, or one applied block.
pub process-cases :
    (p : Platform) (now : ℕ) (b : Block) (l : Ledger)
    → ((process_block p now b l).1 ≡ l)
      ⊎ ((h : Str) × (process_block p now b l ≡ (ok (applied h), (process_block p now b l).1)))
process-cases p now b l = elim (applied-cases (process_block p now b l).0) [
  | inl (h, e) ↦ inr (h, cc)
  | inr n ↦ inl (process_block_atomic p now b l n)
]

step-held :
    (p : Platform) (e : Event) (l : Ledger)
    → IsValid l
    → IsValid (step p e l) × (held (step p e l) ≤ held l)
unfolding step
step-held p (process now b) l v = elim (process-cases p now b l) [
  | inl same ↦ rw same (v, omega arith)
  | inr (h, e) ↦
      let (v', q) = process_block_conserves p now b l h (process_block p now b l).1 v e in
      (v', omega arith)
]
step-held p claim_fees l v =
    unfold claim_accumulated_fees in
    (
      record {
        distinct = v.distinct;
        claimed_known = v.claimed_known;
        fits = omega (arith, v.fits);
      },
      omega arith,
    )

-- Over any run from a valid ledger, the ledger stays valid and the value that it holds never grows.
pub run_creates_no_value :
    (p : Platform) (es : List Event) (l : Ledger)
    → IsValid l
    → IsValid (run p es l) × (held (run p es l) ≤ held l)
unfolding run
run_creates_no_value p [] l v = (v, omega arith)
run_creates_no_value p (e ∷ es) l v =
    let (v1, le1) = step-held p e l v in
    let (v2, le2) = run_creates_no_value p es (step p e l) v1 in (v2, omega arith)

new_ledger-IsValid : IsValid new_ledger
unfolding new_ledger new_distribution weigh contains lookup
new_ledger-IsValid = record { distinct = tt; claimed_known = λ h e. cc; fits = omega arith }

held-new_ledger : held new_ledger ≡ public_supply_cap
unfolding new_ledger new_distribution weigh
held-new_ledger = refl

-- Whatever blocks a new ledger is given, in whatever order, the balances, the fees and the supply
-- that is left never exceed the public supply cap together.
pub supply_is_capped :
    (p : Platform) (es : List Event)
    → weigh balance_of (run p es new_ledger).accounts
        + (run p es new_ledger).accumulated_fees_cil
        + (run p es new_ledger).distribution.remaining_supply
      ≤ public_supply_cap
supply_is_capped p es =
    omega (arith, (run_creates_no_value p es new_ledger new_ledger-IsValid).1, held-new_ledger)
