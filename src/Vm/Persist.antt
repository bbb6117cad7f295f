-- ===== src/Vm/Persist.antt =====
-- What a hosted call stores.
use unauthority_core.Base.{
  ℕ, ◌≡◌, refl, Str, str_eq_iff, Option, none, some, [], ◌∷◌, arith, if◌then◌else◌, str_key, inl,
  inr, Option-cases, from_utf8_lossy,
}
use unauthority_core.Base.Map.{Map, Set, lookup, contains, insert, lookup-insert}
use unauthority_core.Vm.Host.{HostData}
use unauthority_core.Vm.Call.{
  Contract, ContractCall, host_data, state_changes, apply_changes, try_hosted_call,
}

-- The working value as text, if there is one, or else the old value.
abbrev pub text_or_else : Option Str → Option Str → Option Str
text_or_else none old = old
text_or_else (some v) old = some (from_utf8_lossy v)

apply_state_changes :
    (j : Str) (dirty : Set Str) (state m : Map Str Str)
    → lookup j (apply_changes (state_changes dirty state) m)
      ≡ (if contains j dirty then text_or_else (lookup j state) (lookup j m) else lookup j m)
unfolding contains lookup apply_changes state_changes
apply_state_changes j [] state m = refl
apply_state_changes j ((k, u) ∷ dirty) state m = elim (Option-cases (lookup k state)) [
  | inl gone ↦
      rw (state_changes, gone) (ground (arith, apply_state_changes j dirty state m, str_eq_iff j k))
  | inr (v, found) ↦
      rw (state_changes, found, apply_changes)
        (ground (
          arith,
          apply_state_changes j dirty state (insert k (from_utf8_lossy v) m),
          lookup-insert j k (from_utf8_lossy v) m,
          str_eq_iff j k,
        ))
]

-- After a hosted call, whatever its return code, every key that the execution wrote has its last
-- value, with each piece of it that is no UTF-8 replaced as `from_utf8_lossy` does, and every other
-- key has the value from before the call: also a key that the execution has deleted.
pub call_stores_writes :
    (run : HostData → ℕ × HostData) (now : ℕ) (call : ContractCall) (c : Contract) (j : Str)
    → let h = (run (host_data now call c)).1 in
      lookup j (try_hosted_call run now call c).1.state ≡ (
        if contains j h.dirty_keys
        then text_or_else (lookup j h.state) (lookup j c.state)
        else lookup j c.state)
unfolding try_hosted_call
call_stores_writes run now call c j =
    apply_state_changes j (run (host_data now call c)).1.dirty_keys
      (run (host_data now call c)).1.state c.state
