-- ===== src/AntiWhale/Burns.antt =====
-- crates/los-core/src/anti_whale.rs: the limit on what one address burns within a window.
use unauthority_core.Base.{
  ℕ, ◌+◌, ◌^◌, ◌≤◌, ◌<◌, ◌≡◌, refl, Str, str_key, false, Bool-cases, some, List, [], ◌∷◌, arith,
  inl, inr, ltb, u64, All,
}
use unauthority_core.Base.Map.{lookup, lookup-insert_self}
use unauthority_core.Base.Outcome.{Outcome, ok, err, panic}
use unauthority_core.AntiWhale.{
  AddressActivity, AntiWhaleEngine, BurnError, is_over, maybe_reset_activity, current_activity,
  register_burn,
}

-- The amount, if the burn was accepted.
abbrev pub amount_if : Outcome BurnError (Unit {0}) → ℕ → ℕ
amount_if (ok u) amount = amount
amount_if (err x) amount = 0
amount_if panic amount = 0

-- A series of attempts to burn, each with its time: what is accepted in all, and the engine after it.
unfoldable pub burn_all : Str → List (ℕ × ℕ) → AntiWhaleEngine → ℕ × AntiWhaleEngine
burn_all address [] e = (0, e)
burn_all address ((now, amount) ∷ attempts) e =
    let (r, e1) = register_burn now address amount e in
    let (rest, e2) = burn_all address attempts e1 in (amount_if r amount + rest, e2)

-- An attempt within the window, whose amount does not overflow a u64.
abbrev pub IsWithin : ℕ → ℕ → ℕ × ℕ → Type 0
IsWithin window limit (now, amount) = (now < window + 60) × (limit + amount < 2 ^ 64)

-- What is burned stays in the limit, and is what was accepted.
record Burned (address : Str) (window limit sum : ℕ) (e : AntiWhaleEngine) : Type 0 where
  activity : AddressActivity
  found : lookup address e.address_activity ≡ some activity
  same_window : activity.window_start ≡ window
  same_limit : e.config.max_burn_per_block ≡ limit
  adds_up : activity.total_burned ≡ sum
  in_limit : sum ≤ limit

register_burn-Burned :
    (address : Str) (window limit before now amount : ℕ) (e : AntiWhaleEngine)
    → Burned address window limit before e
    → IsWithin window limit (now, amount)
    → let (r, e1) = register_burn now address amount e in
      Burned address window limit (before + amount_if r amount) e1
unfolding register_burn current_activity maybe_reset_activity
register_burn-Burned address window limit before now amount e b (early, small) =
    let a = b.activity in
    let same = b.same_window in
    let still : is_over now a ≡ false = ground (arith, same) in
    let here : current_activity now address e ≡ a =
      rw (current_activity, b.found, maybe_reset_activity, still) refl in
    let exact : u64 (a.total_burned + amount) ≡ a.total_burned + amount =
      omega (arith, b.adds_up, b.in_limit) in
    elim (Bool-cases (ltb e.config.max_burn_per_block (a.total_burned + amount))) [
      | inl over ↦
          rw (register_burn, here, exact, over)
            (record {
              activity = a;
              found = lookup-insert_self address a e.address_activity;
              same_window = same;
              same_limit = b.same_limit;
              adds_up = omega (arith, b.adds_up);
              in_limit = omega (arith, b.in_limit);
            })
      | inr within ↦
          rw (register_burn, here, exact, within)
            (record {
              activity = record a { total_burned = a.total_burned + amount };
              found =
                  lookup-insert_self address (record a { total_burned = a.total_burned + amount })
                    e.address_activity;
              same_window = same;
              same_limit = b.same_limit;
              adds_up = omega (arith, b.adds_up);
              in_limit = ground (arith, b.adds_up, b.same_limit);
            })
    ]

burn_all-Burned :
    (attempts : List (ℕ × ℕ)) (address : Str) (window limit before : ℕ) (e : AntiWhaleEngine)
    → Burned address window limit before e
    → All (IsWithin window limit) attempts
    → let (sum, e1) = burn_all address attempts e in Burned address window limit (before + sum) e1
unfolding burn_all
burn_all-Burned [] address window limit before e b all =
    let same : before + 0 ≡ before = omega arith in rw same b
burn_all-Burned ((now, amount) ∷ attempts) address window limit before e b all =
    let (r, e1) = register_burn now address amount e in
    let c = register_burn-Burned address window limit before now amount e b all.0 in
    let first = amount_if r amount in
    let rest = (burn_all address attempts e1).0 in
    let regroup : before + (first + rest) ≡ (before + first) + rest = omega arith in
    rw regroup (burn_all-Burned attempts address window limit (before + first) e1 c all.1)

-- Whatever burns an address with a known activity attempts within 60 seconds of the start of its
-- window, at any times and in any number, where the limit and each amount together fit a u64: what
-- was burned in the window before, if it was at most the limit, and what is accepted in all is at
-- most the limit.
pub burns_within_limit :
    (address : Str) (attempts : List (ℕ × ℕ)) (e : AntiWhaleEngine) (a : AddressActivity)
    → lookup address e.address_activity ≡ some a
    → a.total_burned ≤ e.config.max_burn_per_block
    → All (IsWithin a.window_start e.config.max_burn_per_block) attempts
    → a.total_burned + (burn_all address attempts e).0 ≤ e.config.max_burn_per_block
burns_within_limit address attempts e a found before all =
    let b =
      burn_all-Burned attempts address a.window_start e.config.max_burn_per_block a.total_burned e
        (record {
          activity = a;
          found = found;
          same_window = refl;
          same_limit = refl;
          adds_up = refl;
          in_limit = before;
        })
        all in
    b.in_limit
