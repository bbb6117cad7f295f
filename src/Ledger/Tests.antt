-- ===== src/Ledger/Tests.antt =====
-- Runs of the ledger on the sample platform.
mod Examples
use unauthority_core.Base.{
  is_char_boundary, ℕ, ◌+◌, ◌*◌, ◌≤◌, ◌≡◌, ◌≢◌, ◌↔◌, refl, Str, codes, Bool, true, false, some,
  List, [], ◌∷◌, ◌++◌, str_key, arith, str_eq, str_ltb, starts_with, split, parse_u128, trim,
  to_le_bytes,
}
use unauthority_core.Base.Map.{lookup, contains, replace, insert_new, insert}
use unauthority_core.Base.Map.Weigh.{weigh}
use unauthority_core.Base.Outcome.{ok, err, panic}
use unauthority_core.Sample.{zeros, toy}
use unauthority_core.Crypto.{
  Platform, verify_dilithium5, verify_signature, public_key_to_address, validate_address,
  address_to_pubkey_hash,
}
use unauthority_core.Crypto.Addresses.{IsDocumented, address_round_trip}
use unauthority_core.Ledger.Block.{
  Block, BlockType, count_zero_bits, signed_bytes, signing_hash, calculate_hash,
  verify_block_signature, verify_pow, cil_per_los,
}
use unauthority_core.Ledger.State.{
  AccountState, Ledger, LedgerError, applied, duplicate, new_ledger, public_supply_cap,
}
use unauthority_core.Ledger.Apply.{
  burned_usd, apply_mint, debit, apply_send, check_receive, apply_receive, check_slasher,
  apply_slash, apply_type,
}
use unauthority_core.Ledger.Process.{
  check_owner, check_account, account_of, check_order, commit, process_new, process_block,
}
use unauthority_core.Ledger.Apply.{is_system_mint}
use unauthority_core.Ledger.Supply.{balance_of, held, removed}
use unauthority_core.Ledger.Conservation.{IsValid, process_block_conserves}
use unauthority_core.Ledger.Frame.{Extends, process_block_atomic, process_block-Extends}
use unauthority_core.Ledger.History.{
  process, claim_fees, run, run_creates_no_value, supply_is_capped,
}
use unauthority_core.Ledger.Replay.{no_double_receive, no_replay}
use unauthority_core.Ledger.Guards.{
  IsSignedBy, IsSlasher, only_owner_spends, only_validators_slash, timestamps_ordered,
  mint_is_limited,
}
use unauthority_core.Ledger.Panics.{SlicesInside, process_block_panics_iff}

toy-IsDocumented : IsDocumented toy
toy-IsDocumented = record {
  blake2b512_size = λ m. refl;
  sha256_size = λ m. refl;
  base58_round_trip = λ m. refl;
}

address_round_trip_example :
    (validate_address toy (public_key_to_address toy (1 ∷ [])) ≡ true)
    × (address_to_pubkey_hash toy (public_key_to_address toy (1 ∷ [])) ≡ some (zeros 20))
address_round_trip_example = address_round_trip toy toy-IsDocumented (1 ∷ [])

-- The address of every key of the platform.
abbrev alice : Str
alice = codes "LOS" ++ (0x4a ∷ zeros 24)

abbrev bob : Str
bob = codes "bob"

abbrev genesis : Ledger
genesis = record {
  accounts =
      (
        alice,
        record {
          head = codes "0";
          balance = 2_000 * cil_per_los;
          block_count = 0;
          is_validator = true;
        },
      )
      ∷ [];
  blocks = [];
  distribution = record { remaining_supply = 500 * cil_per_los; total_burned_usd = 0 };
  claimed_sends = [];
  accumulated_fees_cil = 0;
}

abbrev block : Str → Str → BlockType → ℕ → Str → ℕ → Block
block account previous block_type amount link timestamp = record {
  account = account;
  previous = previous;
  block_type = block_type;
  amount = amount;
  link = link;
  signature = 7 ∷ [];
  public_key = 1 ∷ [];
  work = 0;
  timestamp = timestamp;
  fee = 100_000;
}

abbrev send_block : Block
send_block = block alice (codes "0") BlockType.send 5 bob 1_000

abbrev sent_ledger : Ledger
sent_ledger = (process_block toy 1_000 send_block genesis).1

abbrev receive_block : Block
receive_block = block bob (codes "0") BlockType.receive 5 (calculate_hash toy send_block) 1_001

-- A second claim of the same send, dated later.
abbrev second_receive : Block
second_receive =
    block bob (calculate_hash toy receive_block) BlockType.receive 5 (calculate_hash toy send_block)
      1_002

abbrev mint_block : Block
mint_block = block bob (codes "0") BlockType.mint 9 (codes "REWARD:EPOCH:1: 42 ") 1_000

abbrev slash_block : Block
slash_block = block alice (codes "0") BlockType.slash 3 (codes "PENALTY") 1_000

-- All that a run computes with, under one name.
engine : Unit {0}
unfolding process_block process_new check_owner check_account account_of check_order commit
    apply_type apply_send debit apply_receive check_receive apply_mint apply_slash check_slasher
    burned_usd verify_pow verify_block_signature verify_signature verify_dilithium5 count_zero_bits
    signing_hash calculate_hash signed_bytes public_key_to_address to_le_bytes str_eq str_ltb lookup
    contains insert replace insert_new is_char_boundary starts_with split parse_u128 trim
engine = tt

run_send :
    process_block toy 1_000 send_block genesis
    ≡ (ok (applied (calculate_hash toy send_block)), sent_ledger)
unfolding engine
run_send = refl

abbrev received_ledger : Ledger
received_ledger = (process_block toy 1_001 receive_block sent_ledger).1

run_receive :
    process_block toy 1_001 receive_block sent_ledger
    ≡ (ok (applied (calculate_hash toy receive_block)), received_ledger)
unfolding engine
run_receive = refl

run_second_receive :
    (process_block toy 1_002 second_receive received_ledger).0 ≡ err LedgerError.already_received
unfolding engine
run_second_receive = refl

abbrev minted_ledger : Ledger
minted_ledger = (process_block toy 1_000 mint_block genesis).1

run_mint :
    process_block toy 1_000 mint_block genesis
    ≡ (ok (applied (calculate_hash toy mint_block)), minted_ledger)
unfolding engine
run_mint = refl

mint_burned : minted_ledger.distribution.total_burned_usd ≡ 42
unfolding engine
mint_burned = refl

run_slash : process_block toy 1_000 slash_block genesis ≡ (
  ok (applied (calculate_hash toy slash_block)),
  (process_block toy 1_000 slash_block genesis).1,
)
unfolding engine
run_slash = refl
