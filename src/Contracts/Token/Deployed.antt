-- ===== src/Contracts/Token/Deployed.antt =====
-- crates/los-contracts/src/usp01_token.rs, `init`: what a deployment leaves in the store.
use unauthority_core.Base.{
  ℕ, ◌+◌, ◌<◌, ◌≡◌, refl, ◌^◌, ◌∙◌, Str, codes, decimal, str_eq, starts_with, true, false, arith,
  inl, inr, from_utf8-IsAscii, if◌then◌else◌,
}
use unauthority_core.Base.Outcome.{ok, Outcome-cases}
use unauthority_core.Vm.Host.{HostData}
use unauthority_core.Vm.Sdk.{set_str}
use unauthority_core.Contracts.Decimal.{parse_u128_fits, u128_to_str}
use unauthority_core.Contracts.Token.State.{
  get_number, set_number, get_total_supply, set_total_supply, is_initialized, supply_key,
  amount_arg, bal_prefix,
}
use unauthority_core.Contracts.Token.Init.{Metadata, check_init, store_metadata, init}
use unauthority_core.Contracts.Token.Store.{
  HasRoom, HasShortValues, get_str-other, get_str-set_str, set_str-HasRoom, set_str-HasShortValues,
}
use unauthority_core.Contracts.Token.Outstanding.{
  outstanding, set_balance-outstanding, set_str-outstanding,
}
use unauthority_core.Contracts.Token.Writes.{
  set_total_supply_lem, set_total_supply-outstanding, set_total_supply-Kept, set_balance-Kept,
  set_balance-supply,
}
use unauthority_core.Contracts.Token.Supply.{IsSound}

pub check_init-fresh :
    (h : HostData) (m : Metadata)
    → check_init h ≡ ok m
    → (is_initialized h ≡ false) × (m.total_supply ≡ amount_arg 3 h)
unfolding check_init
check_init-fresh h m e = (ground arith, ground arith)

-- Writes of metadata other than the marker and the supply.
record Stored (n : ℕ) (h h' : HostData) : Type 0 where
  room : HasRoom n h'
  short : HasShortValues h'
  same_sum : outstanding h' ≡ outstanding h
  same_init : is_initialized h' ≡ is_initialized h
  same_supply : get_total_supply h' ≡ get_total_supply h

set_str-Stored :
    (key value : Str) (n : ℕ) (h : HostData)
    → starts_with key bal_prefix ≡ false
    → starts_with key (codes "usp01:init") ≡ false
    → starts_with key supply_key ≡ false
    → HasRoom (n + 1) h
    → HasShortValues h
    → Stored n h (set_str key value h)
unfolding is_initialized get_number starts_with
set_str-Stored key value n h no_balance no_init no_supply room short =
    let one : HasRoom 1 h = omega arith in
    record {
      room = set_str-HasRoom n key value h room;
      short = set_str-HasShortValues key value h one short;
      same_sum = set_str-outstanding key value h no_balance one;
      same_init =
          rw
            (get_str-other (codes "usp01:init") (codes "usp01:init") key value h (omega arith)
              (ground arith) one)
            refl;
      same_supply =
          rw (get_str-other supply_key supply_key key value h (omega arith) (ground arith) one)
            refl;
    }

chained :
    {n : ℕ} {a b : HostData} (m : ℕ) (c : HostData)
    → Stored n a b
    → (HasRoom n b → HasShortValues b → Stored m b c)
    → Stored m a c
chained m c k f =
    let l = f k.room k.short in
    record {
      room = l.room;
      short = l.short;
      same_sum = l.same_sum ∙ k.same_sum;
      same_init = l.same_init ∙ k.same_init;
      same_supply = l.same_supply ∙ k.same_supply;
    }

marked :
    (h : HostData)
    → HasRoom 1 h
    → is_initialized (set_str (codes "usp01:init") (codes "1") h) ≡ true
unfolding is_initialized str_eq
marked h room =
    rw
      (get_str-set_str (codes "usp01:init") (codes "usp01:init") (codes "1") h (omega arith)
        (omega arith) (from_utf8-IsAscii (codes "1") (omega arith, tt)) room)
      refl

-- The metadata before the supply.
first_part :
    (m : Metadata) (h : HostData)
    → HasRoom 10 h
    → HasShortValues h
    → Stored 7 h (
        set_str
          (codes "usp01:decimals")
          (decimal m.decimals)
          (set_str (codes "usp01:symbol") m.symbol (set_str (codes "usp01:name") m.name h)))
unfolding starts_with
first_part m h room short =
    chained 7 _
      (chained 8 _ (set_str-Stored (codes "usp01:name") m.name 9 h refl refl refl room short)
        (set_str-Stored (codes "usp01:symbol") m.symbol 8 _ refl refl refl))
      (set_str-Stored (codes "usp01:decimals") (decimal m.decimals) 7 _ refl refl refl)

-- The metadata after the supply.
last_part :
    (m : Metadata) (h : HostData)
    → HasRoom 6 h
    → HasShortValues h
    → Stored 1 h (
        set_str (codes "usp01:owner") m.creator (
          set_str (codes "usp01:bridge_operator") m.bridge_operator (
            set_number (codes "usp01:max_supply") m.max_supply (
              set_str (codes "usp01:wrapped_origin") m.wrapped_origin (
                set_str
                  (codes "usp01:is_wrapped")
                  (if m.wrapped then codes "1" else codes "0")
                  h)))))
unfolding starts_with set_number
last_part m h room short =
    chained 1 _
      (chained 2 _
        (chained 3 _
          (chained 4 _ (set_str-Stored (codes "usp01:is_wrapped") _ 5 h refl refl refl room short)
            (set_str-Stored (codes "usp01:wrapped_origin") m.wrapped_origin 4 _ refl refl refl))
          (set_str-Stored (codes "usp01:max_supply") (u128_to_str m.max_supply) 3 _ refl refl refl))
        (set_str-Stored (codes "usp01:bridge_operator") m.bridge_operator 2 _ refl refl refl))
      (set_str-Stored (codes "usp01:owner") m.creator 1 _ refl refl refl)

stored_metadata :
    (m : Metadata) (h : HostData)
    → HasRoom 11 h
    → HasShortValues h
    → m.total_supply < 2 ^ 128
    → let h' = store_metadata m h in
      HasRoom 1 h'
      × HasShortValues h'
      × (outstanding h' ≡ outstanding h)
      × (is_initialized h' ≡ true)
      × (get_total_supply h' ≡ m.total_supply)
unfolding store_metadata starts_with
stored_metadata m h room short fits =
    let h1 = set_str (codes "usp01:init") (codes "1") h in
    let one : HasRoom 1 h = omega arith in
    let room1 : HasRoom 10 h1 = set_str-HasRoom 10 (codes "usp01:init") (codes "1") h room in
    let short1 = set_str-HasShortValues (codes "usp01:init") (codes "1") h one short in
    let sum1 = set_str-outstanding (codes "usp01:init") (codes "1") h refl one in
    let a = first_part m h1 room1 short1 in
    let h4 =
      set_str (codes "usp01:decimals") (decimal m.decimals)
        (set_str (codes "usp01:symbol") m.symbol (set_str (codes "usp01:name") m.name h1)) in
    let one4 : HasRoom 1 h4 = omega (arith, a.room) in
    let b = set_total_supply-Kept 6 m.total_supply h4 a.room a.short in
    let c = last_part m (set_total_supply m.total_supply h4) b.room b.short in
    (
      c.room,
      c.short,
      c.same_sum ∙ set_total_supply-outstanding m.total_supply h4 one4 ∙ a.same_sum ∙ sum1,
      c.same_init ∙ b.same_init ∙ a.same_init ∙ marked h one,
      c.same_supply ∙ set_total_supply_lem m.total_supply h4 fits one4,
    )

-- A deployment into a store without balances.
pub init-IsSound : (h : HostData) → HasRoom 11 h → IsSound h → IsSound (init h).1
unfolding init amount_arg
init-IsSound h room s = elim (Outcome-cases (check_init h)) [
  | inl (m, e) ↦
      let (fresh, is_arg) = check_init-fresh h m e in
      let fits : m.total_supply < 2 ^ 128 = rw is_arg (parse_u128_fits _) in
      let (room', short', sum, initialized, supply) = stored_metadata m h room s.short fits in
      let h1 = store_metadata m h in
      let kept = set_balance-Kept 0 m.creator m.total_supply h1 room' short' in
      rw (init, e)
        (record {
          short = kept.short;
          blank = λ b. absurd (ground (arith, kept.same_init));
          backed = inr (
              rw (set_balance-supply m.creator m.total_supply h1 room')
                (elim (set_balance-outstanding m.creator m.total_supply h1 fits room' short') [
                  | inl total ↦ omega (arith, s.blank fresh)
                  | inr (same, gone) ↦ omega (arith, s.blank fresh)
                ]));
        })
  | inr (inl (x, e)) ↦ rw (init, e) s
  | inr (inr e) ↦ rw (init, e) s
]
