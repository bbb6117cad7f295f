-- ===== src/AntiWhale/Fees.antt =====
-- crates/los-core/src/anti_whale.rs: `estimate_fee` foretells what `register_transaction` charges.
use unauthority_core.Base.{
  ℕ, suc, ◌+◌, ◌-◌, ◌^◌, ◌≤◌, ◌<◌, ◌≡◌, ◌≢◌, refl, ap, ◌∙◌, Str, str_key, str_eq, false, Bool-cases,
  some, List, [], ◌∷◌, arith, inl, inr, Option-cases, leb, ltb, if◌then◌else◌, u64, length,
}
use unauthority_core.Base.Map.{Map, lookup, insert}
use unauthority_core.Base.Map.Every.{Every, insert-Every}
use unauthority_core.AntiWhale.{
  AntiWhaleConfig, AddressActivity, AntiWhaleEngine, new_engine, is_over, maybe_reset_activity,
  map_activities, open_block, new_block, scaled, saturating_mul, estimate_fee, current_activity,
  charge, register_transaction, register_burn, reset_block_activity,
}
use unauthority_core.AntiWhale.Runs.{Op, opens, transacts, burns, resets, step, run}

-- At most `n` transactions are counted, and only those over the limit cost more.
abbrev pub IsFair : ℕ → AntiWhaleConfig → AddressActivity → Type 0
IsFair n config a = (a.tx_count ≤ n) × (a.tx_count < config.max_tx_per_block → a.fee_multiplier ≡ 1)

abbrev pub AllFair : ℕ → AntiWhaleConfig → AntiWhaleEngine → Type 0
AllFair n config e = (e.config ≡ config) × Every (λ k a. IsFair n config a) e.address_activity

lookup-map_activities :
    (f : AddressActivity → AddressActivity) (k : Str) (m : Map Str AddressActivity)
    (b : AddressActivity)
    → lookup k (map_activities f m) ≡ some b
    → (a : AddressActivity) × (lookup k m ≡ some a) × (b ≡ f a)
unfolding lookup
lookup-map_activities f k [] b e = absurd (ground arith)
lookup-map_activities f k ((j, a) ∷ m) b e = elim (Bool-cases (str_eq k j)) [
  | inl same ↦ let here : some (f a) ≡ some b = rw same at e in (a, rw same refl, cc)
  | inr other ↦
      let rest : lookup k (map_activities f m) ≡ some b = rw other at e in
      let (c, found, is) = lookup-map_activities f k m b rest in (c, rw other found, is)
]

map-Every :
    (n : ℕ) (config : AntiWhaleConfig) (f : AddressActivity → AddressActivity)
    (m : Map Str AddressActivity)
    → ((a : AddressActivity) → IsFair n config a → IsFair n config (f a))
    → Every (λ k a. IsFair n config a) m
    → Every (λ k a. IsFair n config a) (map_activities f m)
map-Every n config f m keeps every k b e =
    let (a, found, is) = lookup-map_activities f k m b e in rw is (keeps a (every k a found))

module _ (n now : ℕ) (config : AntiWhaleConfig) where
  maybe_reset-IsFair :
      (a : AddressActivity) → IsFair n config a → IsFair n config (maybe_reset_activity now a)
  unfolding maybe_reset_activity
  maybe_reset-IsFair a (few, fair) = elim (Bool-cases (is_over now a)) [
    | inl over ↦ rw (maybe_reset_activity, over) (omega arith, λ h. refl)
    | inr still ↦ rw (maybe_reset_activity, still) (few, fair)
  ]

  open_block-IsFair :
      (block_number : ℕ) (a : AddressActivity)
      → IsFair n config a
      → IsFair n config (open_block now block_number a)
  unfolding open_block
  open_block-IsFair block_number a (few, fair) = elim (Bool-cases (ltb a.last_block block_number)) [
    | inl old ↦ rw (open_block, old) (omega arith, λ h. refl)
    | inr new ↦ rw (open_block, new) (few, fair)
  ]

  current-IsFair :
      (address : Str) (e : AntiWhaleEngine)
      → AllFair n config e
      → IsFair n config (current_activity now address e)
  unfolding current_activity
  current-IsFair address e (same, every) = elim (Option-cases (lookup address e.address_activity)) [
    | inl fresh ↦ rw (current_activity, fresh) (maybe_reset-IsFair _ (omega arith, λ h. refl))
    | inr (a, found) ↦ rw (current_activity, found) (maybe_reset-IsFair a (every address a found))
  ]

  charge-IsFair :
      (a : AddressActivity)
      → IsFair n config a
      → n + 1 < 2 ^ 32
      → IsFair (n + 1) config (charge config a)
  unfolding charge
  charge-IsFair a (few, fair) short = elim (Bool-cases (leb config.max_tx_per_block a.tx_count)) [
    | inl beyond ↦ rw (charge, beyond) (omega arith, λ h. absurd (ground arith))
    | inr below ↦ rw (charge, below) (omega arith, λ h. fair (ground arith))
  ]

charge_at :
    (n now : ℕ) (config c : AntiWhaleConfig)
    → c ≡ config
    → (a : AddressActivity) → IsFair n config a
    → n + 1 < 2 ^ 32
    → IsFair (n + 1) config (charge c a)
charge_at n now config c same a fair short = rw same (charge-IsFair n now config a fair short)

more_fair :
    (n : ℕ) (config : AntiWhaleConfig) (e : AntiWhaleEngine)
    → AllFair n config e
    → AllFair (n + 1) config e
more_fair n config e (same, every) =
    (same, λ k a at. let (few, fair) = every k a at in (omega arith, fair))

inserted_fair :
    (n : ℕ) (config : AntiWhaleConfig) (e : AntiWhaleEngine) (address : Str) (a : AddressActivity)
    → AllFair n config e
    → IsFair n config a
    → AllFair n config (record e { address_activity = insert address a e.address_activity })
inserted_fair n config e address a (same, every) fair =
    (same, insert-Every (λ k a. IsFair n config a) address a e.address_activity fair every)

burn-AllFair :
    (n now : ℕ) (address : Str) (amount : ℕ) (config : AntiWhaleConfig) (e : AntiWhaleEngine)
    → AllFair n config e
    → AllFair n config (register_burn now address amount e).1
unfolding register_burn
burn-AllFair n now address amount config e all =
    let a = current_activity now address e in
    let (few, fair) = current-IsFair n now config address e all in
    elim (Bool-cases (ltb e.config.max_burn_per_block (u64 (a.total_burned + amount)))) [
      | inl over ↦ rw (register_burn, over) (inserted_fair n config e address a all (few, fair))
      | inr within ↦
          rw (register_burn, within)
            (inserted_fair n config e address
              (record a { total_burned = u64 (a.total_burned + amount) }) all (few, fair))
    ]

step-AllFair :
    (n now : ℕ) (op : Op) (config : AntiWhaleConfig) (e : AntiWhaleEngine)
    → n + 1 < 2 ^ 32
    → AllFair n config e
    → AllFair (n + 1) config (step now op e)
unfolding new_block register_transaction reset_block_activity
step-AllFair n now (opens block_number) config e short (same, every) =
    more_fair n config (new_block now block_number e) (
      same,
      map-Every n config (open_block now block_number) e.address_activity
          (open_block-IsFair n now config block_number) every,
    )
step-AllFair n now (transacts address base_fee) config e short all =
    inserted_fair (n + 1) config e address (charge e.config (current_activity now address e))
      (more_fair n config e all)
      (charge_at n now config e.config all.0 (current_activity now address e)
        (current-IsFair n now config address e all) short)
step-AllFair n now (burns address amount) config e short all =
    more_fair n config (register_burn now address amount e).1
      (burn-AllFair n now address amount config e all)
step-AllFair n now resets config e short (same, every) =
    more_fair n config (reset_block_activity now e)
      (same, map-Every n config _ e.address_activity (λ a fair. (omega arith, λ h. refl)) every)

run-AllFair :
    (ops : List (ℕ × Op)) (n : ℕ) (config : AntiWhaleConfig) (e : AntiWhaleEngine)
    → n + length ops < 2 ^ 32
    → AllFair n config e
    → AllFair (n + length ops) config (run ops e)
unfolding run
run-AllFair [] n config e short all = let none_more : n + 0 ≡ n = omega arith in rw none_more all
run-AllFair ((now, op) ∷ ops) n config e short all =
    let more : (n + 1) + length ops ≡ n + suc (length ops) = omega arith in
    rw⁻¹ more (
      run-AllFair ops (n + 1) config (step now op e) (omega arith)
        (step-AllFair n now op config e (omega arith) all))

multiplier :
    (n now : ℕ) (config : AntiWhaleConfig) (a : AddressActivity)
    → config.max_tx_per_block ≢ 0
    → IsFair n config a
    → (charge config (maybe_reset_activity now a)).fee_multiplier ≡ (
        if is_over now a
        then 1
        else if leb config.max_tx_per_block a.tx_count
        then scaled config a.tx_count
        else 1)
unfolding maybe_reset_activity charge
multiplier n now config a limited (few, fair) = elim (Bool-cases (is_over now a)) [
  | inl over ↦
      let positive : leb config.max_tx_per_block 0 ≡ false = ground arith in
      rw (maybe_reset_activity, over, charge, positive) refl
  | inr still ↦ elim (Bool-cases (leb config.max_tx_per_block a.tx_count)) [
    | inl beyond ↦ rw (maybe_reset_activity, still, charge, beyond) refl
    | inr below ↦ rw (maybe_reset_activity, still, charge, below) (fair (ground arith))
  ]
]

charged_as_estimated :
    (n now : ℕ) (address : Str) (base_fee : ℕ) (e : AntiWhaleEngine)
    → e.config.max_tx_per_block ≢ 0
    → AllFair n e.config e
    → (register_transaction now address base_fee e).0 ≡ estimate_fee now address base_fee e
unfolding register_transaction estimate_fee current_activity
charged_as_estimated n now address base_fee e limited (same, every) =
    elim (Option-cases (lookup address e.address_activity)) [
      | inl fresh ↦
          let new =
            multiplier 0 now e.config
              (record {
                tx_count = 0;
                total_burned = 0;
                last_block = e.current_block;
                fee_multiplier = 1;
                window_start = now;
              })
              limited (omega arith, λ h. refl) in
          let none_yet : leb e.config.max_tx_per_block 0 ≡ false = ground arith in
          let one : (if leb 60 (now - now)
                then 1
                else if leb e.config.max_tx_per_block 0
                then scaled e.config 0
                else 1)
              ≡ 1 =
            ground arith in
          rw (estimate_fee, register_transaction, current_activity, fresh)
            (ap (saturating_mul base_fee) (new ∙ one))
      | inr (a, found) ↦
          rw (estimate_fee, register_transaction, current_activity, found)
            (ap (saturating_mul base_fee)
              (multiplier n now e.config a limited (every address a found)))
    ]

-- After any run of fewer than 2^32 operations from a new engine whose limit on transactions is not 0,
-- at any times: what a transaction is charged is the fee that is estimated for it at that time.
pub estimate_is_charged :
    (config : AntiWhaleConfig) (ops : List (ℕ × Op)) (now : ℕ) (address : Str) (base_fee : ℕ)
    → config.max_tx_per_block ≢ 0
    → length ops < 2 ^ 32
    → let e = run ops (new_engine config) in
      (register_transaction now address base_fee e).0 ≡ estimate_fee now address base_fee e
unfolding lookup
estimate_is_charged config ops now address base_fee limited short =
    let e = run ops (new_engine config) in
    let (same, every) =
      run-AllFair ops 0 config (new_engine config) (omega arith)
        (refl, λ k a at. absurd (ground arith)) in
    charged_as_estimated (0 + length ops) now address base_fee e (rw same limited)
      (refl, rw same every)
