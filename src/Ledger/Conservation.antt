-- ===== src/Ledger/Conservation.antt =====
-- `process_block` creates no value: what the ledger holds changes by what the block removes.
use unauthority_core.Base.{
  ℕ, ◌+◌, ◌<◌, ◌≡◌, ◌≢◌, refl, subst, Str, true, false, none, some, arith, u128_mod, u64,
  if◌then◌else◌, str_key, str_eq_iff, inl, inr, Bool-cases, Option-cases,
}
use unauthority_core.Base.Map.{
  Set, contains, insert, lookup, HasDistinctKeys, insert-HasDistinctKeys, contains-insert,
}
use unauthority_core.Base.Map.Weigh.{
  weigh, weight_at, weigh-insert, weight_at-le-weigh, weigh_present,
}
use unauthority_core.Base.Outcome.{ok}
use unauthority_core.Crypto.{Platform}
use unauthority_core.Ledger.Block.{Block, BlockType}
use unauthority_core.Ledger.State.{AccountState, Ledger, applied}
use unauthority_core.Ledger.Apply.{is_send, is_receive, check_receive, apply_type, apply_receive}
use unauthority_core.Ledger.Process.{account_of, commit, process_block}
use unauthority_core.Ledger.Applied.{IsApplied, applied-IsApplied}
use unauthority_core.Ledger.Supply.{
  balance_of, pending, held, removed, sent, received, IsBalanced, apply_type-IsBalanced,
}

-- No block is stored twice, only known blocks are claimed, and the value held fits a u128.
pub record IsValid (l : Ledger) : Type 0 where
  pub distinct : HasDistinctKeys l.blocks
  pub claimed_known : (h : Str) → contains h l.claimed_sends ≡ true → contains h l.blocks ≡ true
  pub fits : held l < u128_mod

-- The Send block that an accepted Receive block refers to.
pub record Claims (b : Block) (l : Ledger) : Type 0 where
  pub source : Block
  pub found : lookup b.link l.blocks ≡ some source
  pub is_a_send : is_send source.block_type ≡ true
  pub addressed : source.link ≡ b.account
  pub same_amount : source.amount ≡ b.amount
  pub unclaimed : contains b.link l.claimed_sends ≡ false

check_receive-Claims : (b : Block) (l : Ledger) → check_receive b l ≡ ok tt → Claims b l
unfolding check_receive
check_receive-Claims b l e = elim (Option-cases (lookup b.link l.blocks)) [
  | inl missing ↦ absurd (ground arith)
  | inr (source, found) ↦ record {
    source = source;
    found = found;
    is_a_send = ground arith;
    addressed = ground (arith, str_eq_iff source.link b.account);
    same_amount = ground arith;
    unclaimed = ground arith;
  }
]

pub apply_type-Claims :
    (p : Platform) (b : Block) (state state' : AccountState) (l l' : Ledger)
    → apply_type BlockType.receive p b state l ≡ (ok state', l')
    → Claims b l
unfolding apply_type apply_receive
apply_type-Claims p b state state' l l' e = check_receive-Claims b l (ground arith)

weight_at-account_of :
    (b : Block) (l : Ledger)
    → weight_at balance_of b.account (lookup b.account l.accounts) ≡ (account_of b l).balance
unfolding account_of
weight_at-account_of b l = ground arith

contains-false-lookup :
    (h : Str) (l : Ledger) → contains h l.blocks ≡ false → lookup h l.blocks ≡ none
unfolding contains
contains-false-lookup h l e = ground arith

-- The pending value once a new block `h` is stored and, if it is a Receive, its source is claimed.
module _ (b : Block) (h : Str) (l : Ledger) (v : IsValid l)
    (fresh : contains h l.blocks ≡ false) where
  unclaimed_new : contains h l.claimed_sends ≡ false
  unclaimed_new = ground (arith, v.claimed_known h)

  pending-insert :
      (claimed : Set Str)
      → weigh (pending claimed) (insert h b l.blocks)
        ≡ weigh (pending claimed) l.blocks + pending claimed h b
  pending-insert claimed =
      ground (arith, weigh-insert (pending claimed) h b l.blocks, contains-false-lookup h l fresh)

  pending_other :
      (k : Str) (c : Block)
      → k ≢ b.link
      → pending (insert b.link tt l.claimed_sends) k c ≡ pending l.claimed_sends k c
  pending_other k c ne =
      ground (arith, contains-insert k b.link tt l.claimed_sends, str_eq_iff k b.link)

  pending_claimed :
      Claims b l
      → weigh (pending (insert b.link tt l.claimed_sends)) l.blocks + b.amount
        ≡ weigh (pending l.claimed_sends) l.blocks
  pending_claimed c = ground (
    arith,
    weigh_present (pending l.claimed_sends) (pending (insert b.link tt l.claimed_sends)) b.link
        pending_other c.source l.blocks v.distinct c.found,
    contains-insert b.link b.link tt l.claimed_sends,
    str_eq_iff b.link b.link,
    c.is_a_send,
    c.same_amount,
    c.unclaimed,
  )

  claimed_after : Set Str
  claimed_after =
      if is_receive b.block_type then insert b.link tt l.claimed_sends else l.claimed_sends

  pending_after :
      (is_receive b.block_type ≡ true → Claims b l)
      → weigh (pending claimed_after) (insert h b l.blocks) + received b.block_type b
        ≡ weigh (pending l.claimed_sends) l.blocks + sent b.block_type b
  unfolding claimed_after
  pending_after claims = elim (Bool-cases (is_receive b.block_type)) [
    | inl yes_receive ↦ ground (
      arith,
      pending-insert (insert b.link tt l.claimed_sends),
      pending_claimed (claims yes_receive),
    )
    | inr other ↦ ground (arith, pending-insert l.claimed_sends, unclaimed_new)
  ]

  received_fits :
      (is_receive b.block_type ≡ true → Claims b l)
      → (account_of b l).balance
          + l.accumulated_fees_cil
          + l.distribution.remaining_supply
          + received b.block_type b
        < u128_mod
  received_fits claims = elim (Bool-cases (is_receive b.block_type)) [
    | inl yes_receive ↦ ground (
      arith,
      pending_claimed (claims yes_receive),
      weight_at-le-weigh balance_of b.account l.accounts,
      weight_at-account_of b l,
      v.fits,
    )
    | inr other ↦ ground (
      arith,
      weight_at-le-weigh balance_of b.account l.accounts,
      weight_at-account_of b l,
      v.fits,
    )
  ]

pub is_receive-eq : (t : BlockType) → is_receive t ≡ true → t ≡ BlockType.receive
is_receive-eq BlockType.receive e = refl
is_receive-eq t e = cc

link_known : {b : Block} {l : Ledger} → Claims b l → contains b.link l.blocks ≡ true
unfolding contains
link_known c = rw (c.found, contains)

module _ (p : Platform) (now : ℕ) (b : Block) (l : Ledger) (h : Str) (l' : Ledger) (v : IsValid l)
    (a : IsApplied p now b l h l') where
  claims : is_receive b.block_type ≡ true → Claims b l
  claims r = apply_type-Claims p b (account_of b l) a.state l a.middle (
      subst (λ t. apply_type t p b (account_of b l) l ≡ (ok a.state, a.middle))
        (is_receive-eq b.block_type r) a.changed)

  balanced : IsBalanced b.block_type b (account_of b l) a.state l a.middle
  balanced =
      apply_type-IsBalanced p b (account_of b l) a.state l a.middle b.block_type
        (received_fits b h l v a.fresh claims) a.changed

  accounts_after :
      weigh balance_of (commit b h a.state a.middle).accounts + (account_of b l).balance
      ≡ weigh balance_of l.accounts + a.state.balance
  unfolding commit
  accounts_after = rw balanced.accounts (
      ground (
        arith,
        weigh-insert balance_of b.account
            (record (a.state) { head = h; block_count = u64 (a.state.block_count + 1) }) l.accounts,
        weight_at-account_of b l,
      ))

  pending_committed :
      weigh
        (pending (commit b h a.state a.middle).claimed_sends)
        (commit b h a.state a.middle).blocks
      ≡ weigh (pending (claimed_after b h l v a.fresh)) (insert h b l.blocks)
  unfolding commit claimed_after
  pending_committed = rw (balanced.claimed, balanced.blocks)

  same_fees :
      ((commit b h a.state a.middle).accumulated_fees_cil ≡ a.middle.accumulated_fees_cil)
      × ((commit b h a.state a.middle).distribution ≡ a.middle.distribution)
  unfolding commit
  same_fees = (refl, refl)

  held_after : held (commit b h a.state a.middle) + removed b.block_type b (account_of b l) ≡ held l
  held_after = ground (
    arith,
    accounts_after,
    pending_committed,
    pending_after b h l v a.fresh claims,
    balanced.value,
    same_fees,
  )

  commit-distinct : HasDistinctKeys (commit b h a.state a.middle).blocks
  unfolding commit
  commit-distinct = rw balanced.blocks (insert-HasDistinctKeys h b l.blocks v.distinct)

  claimed_after-known :
      (k : Str) → contains k (claimed_after b h l v a.fresh) ≡ true → contains k l.blocks ≡ true
  unfolding claimed_after
  claimed_after-known k c = elim (Bool-cases (is_receive b.block_type)) [
    | inl r ↦ ground (
      arith,
      contains-insert k b.link tt l.claimed_sends,
      str_eq_iff k b.link,
      v.claimed_known k,
      link_known (claims r),
    )
    | inr other ↦ ground (arith, v.claimed_known k)
  ]

  commit-claimed_known :
      (k : Str)
      → contains k (commit b h a.state a.middle).claimed_sends ≡ true
      → contains k (commit b h a.state a.middle).blocks ≡ true
  unfolding commit
  commit-claimed_known k c = rw balanced.blocks (
      ground (
        arith,
        contains-insert k h b l.blocks,
        claimed_after-known k (unfold claimed_after in rw balanced.claimed at c),
      ))

-- If the ledger is valid and a block is applied, the ledger stays valid, and the value that it
-- holds (balances, fees, remaining supply and unclaimed sends) has changed by exactly what the
-- block removes: the value for a contract, or the part of a penalty that the account can pay.
pub process_block_conserves :
    (p : Platform) (now : ℕ) (b : Block) (l : Ledger) (h : Str) (l' : Ledger)
    → IsValid l
    → process_block p now b l ≡ (ok (applied h), l')
    → IsValid l' × (held l' + removed b.block_type b (account_of b l) ≡ held l)
process_block_conserves p now b l h l' v e =
    let a = applied-IsApplied p now b l h l' e in
    rw a.written (
      record {
        distinct = commit-distinct p now b l h l' v a;
        claimed_known = commit-claimed_known p now b l h l' v a;
        fits = omega (arith, held_after p now b l h l' v a, v.fits);
      },
      held_after p now b l h l' v a,
    )
