-- ===== src/Ledger/Replay.antt =====
-- What the ledger remembers over a run: stored blocks and claimed sends, so that no block is
-- applied twice and no send is received twice.
use unauthority_core.Base.{
  ℕ, ◌≡◌, ◌≢◌, sym, subst, ◌∙◌, ap, Str, true, false, some, List, [], ◌∷◌, arith, str_key, str_eq,
  str_eq_iff, inl, inr, Bool-cases,
}
use unauthority_core.Base.Map.{contains, lookup}
use unauthority_core.Base.Outcome.{ok}
use unauthority_core.Crypto.{Platform}
use unauthority_core.Ledger.Block.{Block, calculate_hash, verify_pow, verify_block_signature}
use unauthority_core.Ledger.State.{Ledger, applied, duplicate}
use unauthority_core.Ledger.Apply.{is_receive, apply_type}
use unauthority_core.Ledger.Process.{account_of, check_owner, process_block, claim_accumulated_fees}
use unauthority_core.Ledger.Applied.{applied-IsApplied}
use unauthority_core.Ledger.Conservation.{apply_type-Claims, is_receive-eq}
use unauthority_core.Ledger.Frame.{Extends, process_block-Extends}
use unauthority_core.Ledger.History.{Event, process, claim_fees, step, run, process-cases}

-- What a ledger knows of: a stored block, a claimed send.
pub record Remembers (l l' : Ledger) : Type 0 where
  pub blocks : (k : Str) (c : Block) → lookup k l.blocks ≡ some c → lookup k l'.blocks ≡ some c
  pub claims : (k : Str) → contains k l.claimed_sends ≡ true → contains k l'.claimed_sends ≡ true

Extends-Remembers : (b : Block) (h : Str) (l l' : Ledger) → Extends b h l l' → Remembers l l'
Extends-Remembers b h l l' x = record {
  blocks = λ k c e. elim (Bool-cases (str_eq k h)) [
    | inl same ↦ absurd (ground (arith, str_eq_iff k h, x.was_new))
    | inr other ↦ x.other_blocks k (ground (arith, str_eq_iff k h)) ∙ e
  ];
  claims = λ k e. ground (arith, x.claims k);
}

step-Remembers : (p : Platform) (e : Event) (l : Ledger) → Remembers l (step p e l)
unfolding step
step-Remembers p (process now b) l = elim (process-cases p now b l) [
  | inl same ↦ rw same (record { blocks = λ k c e. e; claims = λ k e. e })
  | inr (h, e) ↦
      Extends-Remembers b h l (process_block p now b l).1
        (process_block-Extends p now b l h (process_block p now b l).1 e)
]
step-Remembers p claim_fees l =
    unfold claim_accumulated_fees in record { blocks = λ k c e. e; claims = λ k e. e }

pub run-Remembers : (p : Platform) (es : List Event) (l : Ledger) → Remembers l (run p es l)
unfolding run
run-Remembers p [] l = record { blocks = λ k c e. e; claims = λ k e. e }
run-Remembers p (e ∷ es) l = record {
  blocks =
      λ k c q. (run-Remembers p es (step p e l)).blocks k c ((step-Remembers p e l).blocks k c q);
  claims = λ k q. (run-Remembers p es (step p e l)).claims k ((step-Remembers p e l).claims k q);
}

-- An applied Receive has found its Send block unclaimed.
receive-unclaimed :
    (p : Platform) (now : ℕ) (b : Block) (l : Ledger) (h : Str)
    → is_receive b.block_type ≡ true
    → (process_block p now b l).0 ≡ ok (applied h)
    → contains b.link l.claimed_sends ≡ false
receive-unclaimed p now b l h r e =
    let a = applied-IsApplied p now b l h (process_block p now b l).1 (cc) in
    let t = is_receive-eq b.block_type r in
    (apply_type-Claims p b (account_of b l) a.state l a.middle (
      subst (λ t. apply_type t p b (account_of b l) l ≡ (ok a.state, a.middle)) t
        a.changed)).unclaimed

-- A send is received once: after a Receive block for it is applied, and after anything that happens
-- then, no Receive block with the same link is ever applied.
pub no_double_receive :
    (p : Platform) (now : ℕ) (b : Block) (l : Ledger) (h : Str) (l' : Ledger)
    → process_block p now b l ≡ (ok (applied h), l')
    → is_receive b.block_type ≡ true
    → (es : List Event) (now' : ℕ) (c : Block) (k : Str) → is_receive c.block_type ≡ true
    → c.link ≡ b.link
    → (process_block p now' c (run p es l')).0 ≢ ok (applied k)
no_double_receive p now b l h l' e r es now' c k rc same q =
    let x = process_block-Extends p now b l h l' e in
    let kept =
      (run-Remembers p es l').claims b.link
        (ground (arith, x.claims b.link, str_eq_iff b.link b.link)) in
    let free = receive-unclaimed p now' c (run p es l') k rc q in
    ground (arith, ap (λ j. contains j (run p es l').claimed_sends) same)

passes :
    (p : Platform) (now : ℕ) (b : Block) (l : Ledger)
    → verify_pow p b ≡ true
    → verify_block_signature p b ≡ true
    → check_owner p b ≡ ok tt
    → contains (calculate_hash p b) l.blocks ≡ true
    → process_block p now b l ≡ (ok (duplicate (calculate_hash p b)), l)
unfolding process_block
passes p now b l pow signed owned known = ground arith

lookup-contains :
    (k : Str) (b : Block) (l : Ledger) → lookup k l.blocks ≡ some b → contains k l.blocks ≡ true
unfolding contains
lookup-contains k b l e = ground arith

-- A block is applied once: if it comes again, whenever and after whatever else, it is reported as a
-- duplicate under the same hash, and nothing changes.
pub no_replay :
    (p : Platform) (now : ℕ) (b : Block) (l : Ledger) (h : Str) (l' : Ledger)
    → process_block p now b l ≡ (ok (applied h), l')
    → (es : List Event) (now' : ℕ)
    → process_block p now' b (run p es l') ≡ (ok (duplicate h), run p es l')
no_replay p now b l h l' e es now' =
    let a = applied-IsApplied p now b l h l' e in
    let x = process_block-Extends p now b l h l' e in
    let known =
      lookup-contains h b (run p es l') ((run-Remembers p es l').blocks h b x.stored_block) in
    let known' = subst (λ j. contains j (run p es l').blocks ≡ true) a.hash known in
    subst (λ j. process_block p now' b (run p es l') ≡ (ok (duplicate j), run p es l')) (sym a.hash)
      (passes p now' b (run p es l') a.pow a.signed a.owned known')
