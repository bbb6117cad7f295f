-- ===== src/Ledger/Supply.antt =====
-- The value that the ledger holds: balances, fees, the supply that is left, and the amounts of the
-- Send blocks that nobody has received yet. What `apply_type` does to it.
use unauthority_core.Base.{
  ℕ, ◌+◌, ◌<◌, ◌≡◌, Str, not, ◌&&◌, arith, min, u128_mod, if◌then◌else◌, str_key,
}
use unauthority_core.Base.Map.{Set, contains}
use unauthority_core.Base.Map.Weigh.{weigh}
use unauthority_core.Base.Outcome.{ok}
use unauthority_core.Crypto.{Platform}
use unauthority_core.Ledger.Block.{Block, BlockType}
use unauthority_core.Ledger.State.{AccountState, Ledger}
use unauthority_core.Ledger.Apply.{
  is_send, is_receive, apply_type, apply_mint, debit, apply_send, apply_receive, apply_change,
  apply_deploy, apply_call, apply_slash,
}

abbrev pub balance_of : Str → AccountState → ℕ
balance_of a state = state.balance

-- The amount of a Send block that is not claimed.
abbrev pub pending : Set Str → Str → Block → ℕ
pending claimed h b = if is_send b.block_type && not (contains h claimed) then b.amount else 0

abbrev pub held : Ledger → ℕ
held l =
    weigh balance_of l.accounts
    + l.accumulated_fees_cil
    + l.distribution.remaining_supply
    + weigh (pending l.claimed_sends) l.blocks

-- What a block takes out of the ledger's hands: the value that goes to a contract, and the penalty.
abbrev pub removed : BlockType → Block → AccountState → ℕ
removed BlockType.contract_deploy b state = b.amount
removed BlockType.contract_call b state = b.amount
removed BlockType.slash b state = min b.amount state.balance
removed _ b state = 0

-- What a block puts on its way, and what it takes from there.
abbrev pub sent : BlockType → Block → ℕ
sent t b = if is_send t then b.amount else 0

abbrev pub received : BlockType → Block → ℕ
received t b = if is_receive t then b.amount else 0

pub record IsBalanced (t : BlockType) (b : Block) (state state' : AccountState) (l l' : Ledger)
    : Type 0 where
  pub accounts : l'.accounts ≡ l.accounts
  pub blocks : l'.blocks ≡ l.blocks
  pub claimed : l'.claimed_sends ≡ l.claimed_sends
  pub value :
      state'.balance
        + l'.accumulated_fees_cil
        + l'.distribution.remaining_supply
        + sent t b
        + removed t b state
      ≡ state.balance + l.accumulated_fees_cil + l.distribution.remaining_supply + received t b

module _ (p : Platform) (b : Block) (state state' : AccountState) (l l' : Ledger) where
  abbrev pub Fits : ℕ → Type 0
  Fits extra =
      state.balance + l.accumulated_fees_cil + l.distribution.remaining_supply + extra < u128_mod

  debit-value :
      Fits 0
      → debit b state l ≡ (ok state', l')
      → (l'.accounts ≡ l.accounts)
        × (l'.blocks ≡ l.blocks)
        × (l'.claimed_sends ≡ l.claimed_sends)
        × (state'.balance + l'.accumulated_fees_cil + b.amount
            ≡ state.balance + l.accumulated_fees_cil)
        × (l'.distribution ≡ l.distribution)
  unfolding debit
  debit-value fits e = ground arith

  mint-IsBalanced :
      Fits 0
      → apply_mint p b state l ≡ (ok state', l')
      → IsBalanced BlockType.mint b state state' l l'
  unfolding apply_mint
  mint-IsBalanced fits e = ground arith

  receive-IsBalanced :
      Fits b.amount
      → apply_receive b state l ≡ (ok state', l')
      → IsBalanced BlockType.receive b state state' l l'
  unfolding apply_receive
  receive-IsBalanced fits e = ground arith

  slash-IsBalanced :
      apply_slash p b state l ≡ (ok state', l') → IsBalanced BlockType.slash b state state' l l'
  unfolding apply_slash
  slash-IsBalanced e = ground arith

  pub apply_type-IsBalanced :
      (t : BlockType)
      → Fits (received t b)
      → apply_type t p b state l ≡ (ok state', l')
      → IsBalanced t b state state' l l'
  unfolding apply_type
  apply_type-IsBalanced BlockType.mint fits e = mint-IsBalanced fits e
  apply_type-IsBalanced BlockType.receive fits e = receive-IsBalanced fits e
  apply_type-IsBalanced BlockType.slash fits e = slash-IsBalanced e
  apply_type-IsBalanced BlockType.send fits e =
      unfold apply_send in ground (arith, debit-value fits)
  apply_type-IsBalanced BlockType.change fits e = unfold apply_change in ground arith
  apply_type-IsBalanced BlockType.contract_deploy fits e =
      unfold apply_deploy in ground (arith, debit-value fits)
  apply_type-IsBalanced BlockType.contract_call fits e =
      unfold apply_call in ground (arith, debit-value fits)
