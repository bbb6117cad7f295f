-- ===== src/Ledger/Frame.antt =====
-- What a block leaves alone: everything if it is not applied, all other accounts and blocks if it is.
use unauthority_core.Base.{
  ℕ, ◌+◌, ◌≡◌, ◌≢◌, refl, ap, ◌∙◌, Str, true, false, none, some, arith, u64, if◌then◌else◌, str_key,
  str_eq, str_eq_iff, inl, inr, ◌⊎◌,
}
use unauthority_core.Base.Map.{
  contains, lookup, contains-insert, lookup-insert_self, lookup-insert_ne,
}
use unauthority_core.Base.Outcome.{Outcome, ok, err, panic}
use unauthority_core.Crypto.{Platform}
use unauthority_core.Ledger.Block.{Block, BlockType, calculate_hash}
use unauthority_core.Ledger.State.{AccountState, Ledger, LedgerError, applied}
use unauthority_core.Ledger.Apply.{
  apply_type, apply_mint, debit, apply_send, apply_receive, apply_change, apply_deploy, apply_call,
  apply_slash, is_receive,
}
use unauthority_core.Ledger.Process.{account_of, check_order, commit, process_new, process_block}
use unauthority_core.Ledger.Applied.{applied-IsApplied}

-- A ledger after a stage: unchanged, unless the stage succeeded.
abbrev UnlessOk : {A : Type 0} → Ledger → Outcome LedgerError A × Ledger → Type 0
UnlessOk l (ok a, l') = Unit
UnlessOk l (err e, l') = l' ≡ l
UnlessOk l (panic, l') = l' ≡ l

debit-UnlessOk : (b : Block) (state : AccountState) (l : Ledger) → UnlessOk l (debit b state l)
unfolding debit
debit-UnlessOk b state l = ground arith

apply_type-UnlessOk :
    (t : BlockType) (p : Platform) (b : Block) (state : AccountState) (l : Ledger)
    → UnlessOk l (apply_type t p b state l)
unfolding apply_type
apply_type-UnlessOk BlockType.mint p b state l = unfold apply_mint in ground arith
apply_type-UnlessOk BlockType.send p b state l =
    unfold apply_send in ground (arith, debit-UnlessOk b state l)
apply_type-UnlessOk BlockType.receive p b state l = unfold apply_receive in ground arith
apply_type-UnlessOk BlockType.change p b state l = unfold apply_change in ground arith
apply_type-UnlessOk BlockType.contract_deploy p b state l =
    unfold apply_deploy in ground (arith, debit-UnlessOk b state l)
apply_type-UnlessOk BlockType.contract_call p b state l =
    unfold apply_call in ground (arith, debit-UnlessOk b state l)
apply_type-UnlessOk BlockType.slash p b state l = unfold apply_slash in ground arith

UnlessOk-unchanged :
    {A : Type 0} (l : Ledger) (r : Outcome LedgerError A × Ledger)
    → UnlessOk l r
    → ((a : A) × (r.0 ≡ ok a)) ⊎ (r.1 ≡ l)
UnlessOk-unchanged l (ok a, l') u = inl (a, refl)
UnlessOk-unchanged l (err e, l') u = inr u
UnlessOk-unchanged l (panic, l') u = inr u

process_new-cases :
    (p : Platform) (now : ℕ) (b : Block) (h : Str) (l : Ledger)
    → ((process_new p now b h l).0 ≡ ok (applied h)) ⊎ ((process_new p now b h l).1 ≡ l)
unfolding process_new
process_new-cases p now b h l =
    elim (UnlessOk-unchanged l (apply_type b.block_type p b (account_of b l) l)
      (apply_type-UnlessOk b.block_type p b (account_of b l) l)) [
        | inl (state, q) ↦ ground arith
        | inr q ↦ ground arith
      ]

-- A block that is not reported as applied (an error, a panic, a duplicate) leaves the whole ledger
-- as it was.
pub process_block_atomic :
    (p : Platform) (now : ℕ) (b : Block) (l : Ledger)
    → ((h : Str) → (process_block p now b l).0 ≢ ok (applied h))
    → (process_block p now b l).1 ≡ l
unfolding process_block
process_block_atomic p now b l n =
    ground (arith, process_new-cases p now b (calculate_hash p b) l, n (calculate_hash p b))

-- The parts of the ledger and of the account that `apply_type` never writes.
pub record Keeps (state state' : AccountState) (l l' : Ledger) : Type 0 where
  pub accounts : l'.accounts ≡ l.accounts
  pub blocks : l'.blocks ≡ l.blocks
  pub claimed : l'.claimed_sends ≡ l.claimed_sends
  pub head : state'.head ≡ state.head
  pub block_count : state'.block_count ≡ state.block_count
  pub is_validator : state'.is_validator ≡ state.is_validator

module _ (p : Platform) (b : Block) (state state' : AccountState) (l l' : Ledger) where
  debit-Keeps : debit b state l ≡ (ok state', l') → Keeps state state' l l'
  unfolding debit
  debit-Keeps e = ground arith

  apply_type-Keeps :
      (t : BlockType) → apply_type t p b state l ≡ (ok state', l') → Keeps state state' l l'
  unfolding apply_type
  apply_type-Keeps BlockType.mint e = unfold apply_mint in ground arith
  apply_type-Keeps BlockType.send e = unfold apply_send in ground (arith, debit-Keeps)
  apply_type-Keeps BlockType.receive e = unfold apply_receive in ground arith
  apply_type-Keeps BlockType.change e = unfold apply_change in ground arith
  apply_type-Keeps BlockType.contract_deploy e = unfold apply_deploy in ground (arith, debit-Keeps)
  apply_type-Keeps BlockType.contract_call e = unfold apply_call in ground (arith, debit-Keeps)
  apply_type-Keeps BlockType.slash e = unfold apply_slash in ground arith

-- The state that an applied block leaves: its account has moved on by one block, the block is
-- stored, and no other account and no other block has changed.
pub record Extends (b : Block) (h : Str) (l l' : Ledger) : Type 0 where
  pub chained : b.previous ≡ (account_of b l).head
  pub state : AccountState
  pub stored_account : lookup b.account l'.accounts ≡ some state
  pub new_head : state.head ≡ h
  pub new_count : state.block_count ≡ u64 ((account_of b l).block_count + 1)
  pub same_role : state.is_validator ≡ (account_of b l).is_validator
  pub other_accounts : (a : Str) → a ≢ b.account → lookup a l'.accounts ≡ lookup a l.accounts
  pub was_new : lookup h l.blocks ≡ none
  pub stored_block : lookup h l'.blocks ≡ some b
  pub other_blocks : (k : Str) → k ≢ h → lookup k l'.blocks ≡ lookup k l.blocks
  pub claims :
      (k : Str)
      → contains k l'.claimed_sends ≡ (
          if is_receive b.block_type
          then (if str_eq k b.link then true else contains k l.claimed_sends)
          else contains k l.claimed_sends)

check_order-chained :
    (now : ℕ) (b : Block) (state : AccountState) (l : Ledger)
    → check_order now b state l ≡ ok tt
    → b.previous ≡ state.head
unfolding check_order
check_order-chained now b state l e = ground (arith, str_eq_iff b.previous state.head)

absent : (h : Str) (l : Ledger) → contains h l.blocks ≡ false → lookup h l.blocks ≡ none
unfolding contains
absent h l e = ground arith

commit-Extends :
    (b : Block) (h : Str) (now : ℕ) (state : AccountState) (l m : Ledger)
    → Keeps (account_of b l) state l m
    → check_order now b (account_of b l) l ≡ ok tt
    → contains h l.blocks ≡ false
    → Extends b h l (commit b h state m)
unfolding commit
commit-Extends b h now state l m k ordered fresh = record {
  chained = check_order-chained now b (account_of b l) l ordered;
  state = record state { head = h; block_count = u64 (state.block_count + 1) };
  stored_account = lookup-insert_self b.account _ m.accounts;
  new_head = refl;
  new_count = ap (λ n. u64 (n + 1)) k.block_count;
  same_role = k.is_validator;
  other_accounts = λ a ne. lookup-insert_ne a b.account _ m.accounts ne ∙ ap (lookup a) k.accounts;
  was_new = absent h l fresh;
  stored_block = lookup-insert_self h b m.blocks;
  other_blocks = λ j ne. lookup-insert_ne j h b m.blocks ne ∙ ap (lookup j) k.blocks;
  claims = λ j. rw k.claimed (ground (arith, contains-insert j b.link tt l.claimed_sends));
}

-- An applied block extends the chain of its account by one block whose predecessor was the head,
-- and changes no other account and no stored block.
pub process_block-Extends :
    (p : Platform) (now : ℕ) (b : Block) (l : Ledger) (h : Str) (l' : Ledger)
    → process_block p now b l ≡ (ok (applied h), l')
    → Extends b h l l'
process_block-Extends p now b l h l' e =
    let a = applied-IsApplied p now b l h l' e in
    rw a.written (
      commit-Extends b h now a.state l a.middle
        (apply_type-Keeps p b (account_of b l) a.state l a.middle b.block_type a.changed) a.ordered
        a.fresh)
