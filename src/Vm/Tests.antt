-- ===== src/Vm/Tests.antt =====
-- A hosted call that writes one key and deletes another.
use unauthority_core.Base.{
  from_utf8, from_utf8_lossy, next_bytes, grow_char, start_char, cut_off, next_char, repair, ℕ, ◌≡◌,
  refl, codes, str_eq, str_ltb, str_key, is_char_boundary, [], ◌∷◌, some, none, if◌then◌else◌,
}
use unauthority_core.Base.Map.{lookup, contains, insert, replace, insert_new, erase}
use unauthority_core.Vm.Host.{HostData, read_text, host_set_state, host_get_state, host_del_state}
use unauthority_core.Vm.Sdk.{set_str, get_str, del}
use unauthority_core.Vm.Call.{
  Contract, ContractCall, host_data, state_changes, apply_changes, pay_transfers, try_hosted_call,
}
use unauthority_core.Vm.Persist.{text_or_else, call_stores_writes}

-- All that a run computes with, under one name.
engine : Unit {0}
unfolding read_text host_set_state host_get_state host_del_state set_str get_str del host_data
    state_changes apply_changes pay_transfers from_utf8 from_utf8_lossy next_bytes grow_char
    start_char cut_off next_char repair try_hosted_call lookup contains insert replace insert_new
    erase str_eq str_ltb is_char_boundary
engine = tt

abbrev counter : Contract
counter = record {
  address = codes "counter";
  state = (codes "n", codes "1") ∷ (codes "old", codes "x") ∷ [];
  balance = 0;
  owner = codes "alice";
}

abbrev bump : ContractCall
bump = record { args = []; caller = codes "alice"; block_timestamp = 1 }

abbrev run : HostData → ℕ × HostData
run h = (0, del (codes "old") (set_str (codes "n") (codes "2") h))

old_stays :
    (try_hosted_call run 0 bump counter).1.state
    ≡ (codes "n", codes "2") ∷ (codes "old", codes "x") ∷ []
unfolding engine
old_stays = refl

-- A byte that starts no character, a character that is cut, and one that is complete.
lossy_repairs :
    from_utf8_lossy (65 ∷ 255 ∷ 226 ∷ 130 ∷ 66 ∷ 195 ∷ 169 ∷ 240 ∷ 159 ∷ [])
    ≡ 65 ∷ 239 ∷ 191 ∷ 189 ∷ 239 ∷ 191 ∷ 189 ∷ 66 ∷ 195 ∷ 169 ∷ 239 ∷ 191 ∷ 189 ∷ []
unfolding engine
lossy_repairs = refl

-- Bytes that are no text are stored with replacements.
abbrev run_bytes : HostData → ℕ × HostData
run_bytes h = (0, set_str (codes "n") (232 ∷ 3 ∷ 0 ∷ []) h)

bytes_are_repaired :
    lookup (codes "n") (try_hosted_call run_bytes 0 bump counter).1.state
    ≡ some (239 ∷ 191 ∷ 189 ∷ 3 ∷ 0 ∷ [])
unfolding engine
bytes_are_repaired = refl

-- In the same execution they are read back as bytes, but not as a text.
bytes_are_no_text : get_str (codes "n") (run_bytes (host_data 0 bump counter)).1 ≡ none
unfolding engine
bytes_are_no_text = refl

call_stores_writes_example :
    let h = (run_bytes (host_data 0 bump counter)).1 in
    lookup (codes "n") (try_hosted_call run_bytes 0 bump counter).1.state ≡ (
      if contains (codes "n") h.dirty_keys
      then text_or_else (lookup (codes "n") h.state) (lookup (codes "n") counter.state)
      else lookup (codes "n") counter.state)
call_stores_writes_example = call_stores_writes run_bytes 0 bump counter (codes "n")
