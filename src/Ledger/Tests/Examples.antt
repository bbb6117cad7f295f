-- ===== src/Ledger/Tests/Examples.antt =====
-- The theorems on the ledger at the runs of `Tests`.
use unauthority_core.Base.{
  is_char_boundary, ℕ, ◌+◌, ◌*◌, ◌≤◌, ◌≡◌, ◌≢◌, ◌↔◌, refl, codes, Bool, true, false, some, List, [],
  ◌∷◌, ◌++◌, str_key, arith,
}
use unauthority_core.Base.Map.{lookup, contains}
use unauthority_core.Base.Map.Weigh.{weigh}
use unauthority_core.Base.Outcome.{ok, panic}
use unauthority_core.Sample.{toy}
use unauthority_core.Crypto.{public_key_to_address}
use unauthority_core.Ledger.Block.{Block, BlockType, calculate_hash, cil_per_los}
use unauthority_core.Ledger.State.{AccountState, applied, duplicate, new_ledger, public_supply_cap}
use unauthority_core.Ledger.Process.{account_of, process_block}
use unauthority_core.Ledger.Apply.{is_system_mint}
use unauthority_core.Ledger.Supply.{balance_of, held, removed}
use unauthority_core.Ledger.Conservation.{IsValid, process_block_conserves}
use unauthority_core.Ledger.Frame.{Extends, process_block_atomic, process_block-Extends}
use unauthority_core.Ledger.History.{
  process, claim_fees, run, run_creates_no_value, supply_is_capped,
}
use unauthority_core.Ledger.Replay.{no_double_receive, no_replay}
use unauthority_core.Ledger.Guards.{
  IsSignedBy, IsSlasher, only_owner_spends, only_validators_slash, timestamps_ordered,
  mint_is_limited,
}
use unauthority_core.Ledger.Panics.{SlicesInside, process_block_panics_iff}
use unauthority_core.Ledger.Tests.{
  alice, bob, genesis, block, send_block, sent_ledger, receive_block, second_receive, mint_block,
  slash_block, engine, run_send, received_ledger, run_receive, run_second_receive, minted_ledger,
  run_mint, run_slash,
}

genesis-IsValid : IsValid genesis
unfolding weigh lookup contains
genesis-IsValid = record { distinct = tt; claimed_known = λ h e. cc; fits = omega arith }

process_block_conserves_example :
    IsValid sent_ledger
    × (held sent_ledger + removed BlockType.send send_block (account_of send_block genesis)
        ≡ held genesis)
process_block_conserves_example =
    process_block_conserves toy 1_000 send_block genesis (calculate_hash toy send_block) sent_ledger
      genesis-IsValid run_send

run_creates_no_value_example :
    IsValid (run toy (process 1_000 send_block ∷ claim_fees ∷ []) genesis)
    × (held (run toy (process 1_000 send_block ∷ claim_fees ∷ []) genesis) ≤ held genesis)
run_creates_no_value_example =
    run_creates_no_value toy (process 1_000 send_block ∷ claim_fees ∷ []) genesis genesis-IsValid

supply_is_capped_example :
    weigh balance_of (run toy (process 1_000 mint_block ∷ []) new_ledger).accounts
      + (run toy (process 1_000 mint_block ∷ []) new_ledger).accumulated_fees_cil
      + (run toy (process 1_000 mint_block ∷ []) new_ledger).distribution.remaining_supply
    ≤ public_supply_cap
supply_is_capped_example = supply_is_capped toy (process 1_000 mint_block ∷ [])

no_double_receive_example :
    (process_block toy 1_002 second_receive (run toy (claim_fees ∷ []) received_ledger)).0
    ≢ ok (applied (calculate_hash toy second_receive))
no_double_receive_example =
    no_double_receive toy 1_001 receive_block sent_ledger (calculate_hash toy receive_block)
      received_ledger run_receive refl (claim_fees ∷ []) 1_002 second_receive
      (calculate_hash toy second_receive) refl refl

no_replay_example :
    process_block toy 1_005 send_block (run toy (process 1_001 receive_block ∷ []) sent_ledger) ≡ (
      ok (duplicate (calculate_hash toy send_block)),
      run toy (process 1_001 receive_block ∷ []) sent_ledger,
    )
no_replay_example =
    no_replay toy 1_000 send_block genesis (calculate_hash toy send_block) sent_ledger run_send
      (process 1_001 receive_block ∷ []) 1_005

process_block_atomic_example :
    (process_block toy 1_002 second_receive received_ledger).1 ≡ received_ledger
process_block_atomic_example =
    process_block_atomic toy 1_002 second_receive received_ledger
      (λ h e. absurd (ground (arith, run_second_receive)))

process_block-Extends_example :
    Extends send_block (calculate_hash toy send_block) genesis sent_ledger
process_block-Extends_example =
    process_block-Extends toy 1_000 send_block genesis (calculate_hash toy send_block) sent_ledger
      run_send

only_owner_spends_example :
    (key : List ℕ) × IsSignedBy toy send_block key × (public_key_to_address toy key ≡ alice)
only_owner_spends_example =
    only_owner_spends toy 1_000 send_block genesis (calculate_hash toy send_block) sent_ledger
      run_send refl

only_validators_slash_example :
    (key : List ℕ) × IsSignedBy toy slash_block key
    × (signer : AccountState) × IsSlasher toy genesis key signer
only_validators_slash_example =
    only_validators_slash toy 1_000 slash_block genesis (calculate_hash toy slash_block)
      (process_block toy 1_000 slash_block genesis).1 run_slash refl

abbrev next_send : Block
next_send = block alice (calculate_hash toy send_block) BlockType.send 6 bob 1_002

run_next_send : process_block toy 1_001 next_send sent_ledger ≡ (
  ok (applied (calculate_hash toy next_send)),
  (process_block toy 1_001 next_send sent_ledger).1,
)
unfolding engine
run_next_send = refl

timestamps_ordered_example :
    (1_002 ≤ 1_001 + 300)
    × (calculate_hash toy send_block ≢ codes "0"
        → lookup (calculate_hash toy send_block) sent_ledger.blocks ≡ some send_block
        → 1_000 ≤ 1_002)
timestamps_ordered_example =
    timestamps_ordered toy 1_001 next_send sent_ledger (calculate_hash toy next_send)
      (process_block toy 1_001 next_send sent_ledger).1 send_block run_next_send (omega arith)

mint_is_limited_example :
    (minted_ledger.distribution.remaining_supply + 9 ≡ 500 * cil_per_los)
    × (◌≡◌ {A = Bool} true true
        → is_system_mint (codes "REWARD:EPOCH:1: 42 ") ≡ false
        → 9 ≤ 1_000 * cil_per_los)
mint_is_limited_example =
    mint_is_limited toy 1_000 mint_block genesis (calculate_hash toy mint_block) minted_ledger
      run_mint refl

toy_sliceable : (key : List ℕ) → is_char_boundary (public_key_to_address toy key) 16 ≡ true
unfolding is_char_boundary public_key_to_address
toy_sliceable key = refl

-- A penalty for an account whose name has a two-byte character at bytes 15 and 16.
abbrev odd_account : Block
odd_account =
    block (codes "aaaaaaaaaaaaaaa" ++ (0xc3 ∷ 0xa9 ∷ [])) (codes "0") BlockType.slash 3
      (codes "PENALTY") 1_000

run_odd_account : (process_block toy 1_000 odd_account genesis).0 ≡ panic
unfolding engine
run_odd_account = refl

process_block_panics_iff_example :
    ((process_block toy 1_000 odd_account genesis).0 ≡ panic) ↔ SlicesInside toy odd_account genesis
process_block_panics_iff_example =
    process_block_panics_iff toy odd_account genesis toy_sliceable 1_000
