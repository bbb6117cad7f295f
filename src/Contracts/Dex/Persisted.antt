-- ===== src/Contracts/Dex/Persisted.antt =====
-- crates/los-contracts/src/dex_amm.rs, `remove_liquidity`, as it is run by the virtual machine
-- (crates/los-vm/src/lib.rs): what stays stored of the shares that are withdrawn.
use unauthority_core.Base.{
  ℕ, ◌-◌, ◌≡◌, refl, ◌∙◌, Str, codes, str_key, length, true, none, some, arith, ◌==◌, inl, inr, ◌⊎◌,
  ◌<◌, false, leb, Bool-cases, Option-cases, [], str_eq_iff, str_eq,
}
use unauthority_core.Base.Map.{
  Set, lookup, contains, contains-insert, insert, HasDistinctKeys, lookup-erase_self,
}
use unauthority_core.Base.Outcome.{Outcome, ok, err, panic, Outcome-cases}
use unauthority_core.Vm.Host.{HostData, host_del_state, read_text, max_state_key_size}
use unauthority_core.Vm.Sdk.{arg, caller, del}
use unauthority_core.Vm.Call.{Contract, ContractCall, host_data, try_hosted_call}
use unauthority_core.Vm.Persist.{call_stores_writes}
use unauthority_core.Contracts.Token.Store.{
  HasRoom, read_text-short, length-read_text, length-distinct, set_str-readable, set_str-unreadable,
}
use unauthority_core.Contracts.Token.Numbers.{set_number-HasRoom, set_number-HasDistinctKeys}
use unauthority_core.Contracts.Decimal.{u128_to_str}
use unauthority_core.Contracts.Token.State.{set_number}
use unauthority_core.Contracts.Dex.State.{
  lp_key, lp_shares, set_pool, reserve_a, reserve_b, total_lp, DexError, pool_key,
}
use unauthority_core.Contracts.Dex.Math.{wrapping_sub}
use unauthority_core.Contracts.Dex.Guards.{
  IsAmount, check_remove-MayRemove, text_arg-ok, number_arg-ok,
}
use unauthority_core.Contracts.Dex.{check_remove, remove_liquidity, set_shares}

-- The return code: 0 for success.
abbrev pub code_of : Outcome DexError (Unit {0}) → ℕ
code_of (ok u) = 0
code_of (err e) = 1
code_of panic = 1

-- The hosted execution of `remove_liquidity`.
abbrev pub run_remove : HostData → ℕ × HostData
run_remove h = let (r, x) = remove_liquidity h in (code_of r, x)

set_pool-HasDistinctKeys :
    (id : Str) (a b c : ℕ) (h : HostData)
    → HasRoom 3 h
    → HasDistinctKeys h.state
    → HasDistinctKeys (set_pool id a b c h).state
set_pool-HasDistinctKeys id a b c h room distinct =
    let h1 = set_number (pool_key id (codes "reserve_a")) a h in
    let h2 = set_number (pool_key id (codes "reserve_b")) b h1 in
    let room1 : HasRoom 2 h1 = set_number-HasRoom 2 (pool_key id (codes "reserve_a")) a h room in
    let room2 : HasRoom 1 h2 = set_number-HasRoom 1 (pool_key id (codes "reserve_b")) b h1 room1 in
    set_number-HasDistinctKeys (pool_key id (codes "total_lp")) c h2 room2 (
      set_number-HasDistinctKeys (pool_key id (codes "reserve_b")) b h1 (omega arith)
        (set_number-HasDistinctKeys (pool_key id (codes "reserve_a")) a h (omega arith) distinct))

insert_clean :
    (j k : Str) (s : Set Str)
    → str_eq k j ≡ false
    → contains j s ≡ false
    → contains j (insert k tt s) ≡ false
insert_clean j k s other clean =
    ground (arith, contains-insert j k tt s, str_eq_iff j k, str_eq_iff k j)

-- A key that is too long to be written as it is.
abbrev IsLong : Str → Type 0
IsLong key = max_state_key_size < length key

set_number-dirty :
    (key j : Str) (v : ℕ) (h : HostData)
    → IsLong key
    → HasRoom 1 h
    → contains key h.dirty_keys ≡ false
    → contains key (set_number j v h).dirty_keys ≡ false
unfolding set_number
set_number-dirty key j v h long room clean = elim (Option-cases (read_text max_state_key_size j)) [
  | inl lost ↦ rw (set_number, set_str-unreadable j (u128_to_str v) h lost) clean
  | inr (k, readable) ↦
      rw (set_number, set_str-readable j (u128_to_str v) k h readable room)
        (insert_clean key k h.dirty_keys
          (length-distinct k key
            (omega (arith, long, length-read_text max_state_key_size j k readable)))
          clean)
]

set_pool-dirty :
    (key id : Str) (a b c : ℕ) (h : HostData)
    → IsLong key
    → HasRoom 3 h
    → contains key h.dirty_keys ≡ false
    → contains key (set_pool id a b c h).dirty_keys ≡ false
set_pool-dirty key id a b c h long room clean =
    let h1 = set_number (pool_key id (codes "reserve_a")) a h in
    let h2 = set_number (pool_key id (codes "reserve_b")) b h1 in
    let room1 : HasRoom 2 h1 = set_number-HasRoom 2 (pool_key id (codes "reserve_a")) a h room in
    let room2 : HasRoom 1 h2 = set_number-HasRoom 1 (pool_key id (codes "reserve_b")) b h1 room1 in
    set_number-dirty key (pool_key id (codes "total_lp")) c h2 long room2 (
      set_number-dirty key (pool_key id (codes "reserve_b")) b h1 long (omega arith)
        (set_number-dirty key (pool_key id (codes "reserve_a")) a h long (omega arith) clean))

-- A key that was deleted has no working value, or it is not among those that are stored.
deleted :
    (key : Str) (w : HostData)
    → HasDistinctKeys w.state
    → (IsLong key → contains key w.dirty_keys ≡ false)
    → (lookup key (del key w).state ≡ none) ⊎ (contains key (del key w).dirty_keys ≡ false)
unfolding del host_del_state
deleted key w distinct clean = elim (Bool-cases (leb (length key) max_state_key_size)) [
  | inl short ↦
      let readable = read_text-short max_state_key_size key (ground arith) in
      inl (rw (del, host_del_state, readable) (lookup-erase_self key w.state distinct))
  | inr over ↦
      let long : IsLong key = ground arith in
      elim (Option-cases (read_text max_state_key_size key)) [
        | inl lost ↦ inr (rw (del, host_del_state, lost) (clean long))
        | inr (k, readable) ↦ inr (
            rw (del, host_del_state, readable)
              (insert_clean key k w.dirty_keys
                (length-distinct k key
                  (omega (arith, long, length-read_text max_state_key_size key k readable)))
                (clean long)))
      ]
]

-- A full withdrawal leaves no working value of the caller's shares that would be stored.
emptied :
    (h h' : HostData) (id : Str)
    → arg 0 h ≡ some id
    → IsAmount 1 h (lp_shares id (caller h) h)
    → HasRoom 4 h
    → HasDistinctKeys h.state
    → h.dirty_keys ≡ []
    → remove_liquidity h ≡ (ok tt, h')
    → let key = lp_key id (caller h) in
      (lookup key h'.state ≡ none) ⊎ (contains key h'.dirty_keys ≡ false)
unfolding remove_liquidity set_shares contains
emptied h h' id given (s, at, is_all) room distinct clean e =
    elim (Outcome-cases (check_remove h)) [
      | inl (l, q) ↦
          let may = check_remove-MayRemove h l q in
          let same_id : id ≡ l.pool_id =
            ground (arith, text_arg-ok 0 DexError.no_pool_id h l.pool_id may.id_given) in
          let (s', at', is_lp) = number_arg-ok 1 DexError.no_lp_amount h l.lp_tokens may.lp_given in
          let same_text : s ≡ s' = ground arith in
          let all : lp_shares id (caller h) h ≡ l.lp_tokens = cc in
          let all' : lp_shares l.pool_id (caller h) h ≡ l.lp_tokens = rw⁻¹ same_id all in
          let a = wrapping_sub (reserve_a l.pool_id h) l.amount_a in
          let b = wrapping_sub (reserve_b l.pool_id h) l.amount_b in
          let c = wrapping_sub (total_lp l.pool_id h) l.lp_tokens in
          let left : (lp_shares l.pool_id (caller h) h - l.lp_tokens) == 0 ≡ true = ground arith in
          let key = lp_key l.pool_id (caller h) in
          let done : remove_liquidity h ≡ (ok tt, del key (set_pool l.pool_id a b c h)) =
            rw (remove_liquidity, q, set_shares, left) refl in
          let last : h' ≡ del key (set_pool l.pool_id a b c h) = cc in
          rw (last, same_id)
            (deleted key (set_pool l.pool_id a b c h)
              (set_pool-HasDistinctKeys l.pool_id a b c h (omega arith) distinct)
              (λ long. set_pool-dirty key l.pool_id a b c h long (omega arith) (rw clean refl)))
      | inr (inl (x, q)) ↦ absurd (ground arith)
      | inr (inr q) ↦ absurd (ground arith)
    ]

-- A hosted call in which the caller withdraws all its shares of a pool, with success, from a stored
-- state that lists no key twice, leaves what is stored of its shares as it was before the call.
pub full_withdrawal_keeps_shares :
    (now : ℕ) (call : ContractCall) (c : Contract) (h' : HostData) (id : Str)
    → let h = host_data now call c in
      arg 0 h ≡ some id
      → IsAmount 1 h (lp_shares id (caller h) h)
      → HasDistinctKeys c.state
      → remove_liquidity h ≡ (ok tt, h')
      → lookup (lp_key id (caller h)) (try_hosted_call run_remove now call c).1.state
        ≡ lookup (lp_key id (caller h)) c.state
unfolding host_data
full_withdrawal_keeps_shares now call c h' id given is_all distinct e =
    let h = host_data now call c in
    let key = lp_key id (caller h) in
    let ends : (run_remove h).1 ≡ h' = rw e refl in
    call_stores_writes run_remove now call c key
    ∙ rw ends (elim (emptied h h' id given is_all (omega arith) distinct refl e) [
      | inl gone ↦ rw gone (ground arith)
      | inr clean ↦ rw clean refl
    ])
