-- ===== src/Ledger/Applied.antt =====
-- What a run of `process_block` that applied its block has passed, stage by stage.
use unauthority_core.Base.{subst, sym, ℕ, Str, true, false, ◌≡◌, inl, inr, arith, str_key}
use unauthority_core.Base.Map.{contains}
use unauthority_core.Base.Outcome.{ok, Outcome-cases}
use unauthority_core.Crypto.{Platform}
use unauthority_core.Ledger.Block.{Block, verify_pow, verify_block_signature, calculate_hash}
use unauthority_core.Ledger.State.{AccountState, Ledger, ProcessResult, applied}
use unauthority_core.Ledger.Apply.{apply_type}
use unauthority_core.Ledger.Process.{
  check_owner, check_account, account_of, check_order, commit, process_new, process_block,
}

pub record IsApplied (p : Platform) (now : ℕ) (b : Block) (l : Ledger) (h : Str) (l' : Ledger)
    : Type 0 where
  pub pow : verify_pow p b ≡ true
  pub signed : verify_block_signature p b ≡ true
  pub owned : check_owner p b ≡ ok tt
  pub hash : h ≡ calculate_hash p b
  pub fresh : contains h l.blocks ≡ false
  pub exists : check_account b l ≡ ok tt
  pub ordered : check_order now b (account_of b l) l ≡ ok tt
  pub state : AccountState
  pub middle : Ledger
  pub changed : apply_type b.block_type p b (account_of b l) l ≡ (ok state, middle)
  pub written : l' ≡ commit b h state middle

process_new-applied :
    (p : Platform) (now : ℕ) (b : Block) (l : Ledger) (h : Str) {r : ProcessResult} (l' : Ledger)
    → process_new p now b h l ≡ (ok r, l')
    → (check_account b l ≡ ok tt)
      × (check_order now b (account_of b l) l ≡ ok tt)
      × (state : AccountState) × (middle : Ledger) × (apply_type b.block_type p b (account_of b l) l
          ≡ (ok state, middle))
      × (l' ≡ commit b h state middle)
      × (r ≡ applied h)
unfolding process_new
process_new-applied p now b l h l' e =
    elim (Outcome-cases (apply_type b.block_type p b (account_of b l) l).0) [
      | inl (state, q) ↦ (
        ground arith,
        ground arith,
        state,
        (apply_type b.block_type p b (account_of b l) l).1,
        ground arith,
        ground arith,
        ground arith,
      )
      | inr (inl (x, q)) ↦ absurd (ground arith)
      | inr (inr q) ↦ absurd (ground arith)
    ]

process_block-applied :
    (p : Platform) (now : ℕ) (b : Block) (l : Ledger) (h : Str) (l' : Ledger)
    → process_block p now b l ≡ (ok (applied h), l')
    → (verify_pow p b ≡ true)
      × (verify_block_signature p b ≡ true)
      × (check_owner p b ≡ ok tt)
      × (contains (calculate_hash p b) l.blocks ≡ false)
      × (process_new p now b (calculate_hash p b) l ≡ (ok (applied h), l'))
unfolding process_block
process_block-applied p now b l h l' e = ground arith

-- Everything that a run has passed if it reports its block as applied.
pub applied-IsApplied :
    (p : Platform) (now : ℕ) (b : Block) (l : Ledger) (h : Str) (l' : Ledger)
    → process_block p now b l ≡ (ok (applied h), l')
    → IsApplied p now b l h l'
applied-IsApplied p now b l h l' e =
    let (pow, signed, owned, fresh, rest) = process_block-applied p now b l h l' e in
    let (exists, ordered, state, middle, changed, written, named) =
      process_new-applied p now b l (calculate_hash p b) l' rest in
    let same : h ≡ calculate_hash p b = cc in
    record {
      pow = pow;
      signed = signed;
      owned = owned;
      hash = same;
      fresh = subst (λ k. contains k l.blocks ≡ false) (sym same) fresh;
      exists = exists;
      ordered = ordered;
      state = state;
      middle = middle;
      changed = changed;
      written = subst (λ k. l' ≡ commit b k state middle) (sym same) written;
    }
