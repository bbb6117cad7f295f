-- ===== src/Vm/Sdk.antt =====
-- crates/los-sdk/src/lib.rs: the wrappers of the host functions that the contracts call.
use unauthority_core.Base.{ℕ, Str, Option, none, some, take, from_utf8, from_utf8_lossy}
use unauthority_core.Vm.Host.{
  HostData, max_state_value_size, read_text, host_set_state, host_get_state, host_del_state,
  host_get_arg,
}

unfoldable pub set_str : Str → Str → HostData → HostData
set_str key value h = host_set_state key value h

unfoldable pub get_str : Str → HostData → Option Str
get_str key h = elim (host_get_state key h) [
  | none ↦ none
  | some bytes ↦ from_utf8 (take max_state_value_size bytes)
]

unfoldable pub del : Str → HostData → HostData
del key h = host_del_state key h

unfoldable pub caller : HostData → Str
caller h = from_utf8_lossy (take 256 h.caller)

unfoldable pub arg : ℕ → HostData → Option Str
arg idx h = elim (host_get_arg idx h) [ none ↦ none | some bytes ↦ read_text 65_536 bytes ]
