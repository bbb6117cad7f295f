-- ===== src/Consensus/Abft/Leader.antt =====
-- crates/los-consensus/src/abft.rs, `get_leader` and `is_leader` under view changes.
use native.Mathlib.Nat.{mod-eq_of_lt, mod-lt, mod-add-mod, add-mod_right}
use unauthority_core.Base.{
  ℕ, zero, suc, ◌+◌, ◌-◌, ◌%◌, ◌^◌, ◌≤◌, ◌<◌, ◌≡◌, sym, ◌⊎◌, ◌∙◌, ap, true, Str, str_eq_iff, some,
  List, [], ◌∷◌, arith, nat_key, length, get_elem?, leb, Bool-cases, inl, inr,
}
use unauthority_core.Base.Outcome.{ok}
use unauthority_core.Consensus.Abft.State.{Engine}
use unauthority_core.Consensus.Abft.{get_leader, is_leader, complete_view_change}

listed : (xs : List Str) (i : ℕ) (a : Str) → get_elem? xs i ≡ some a → i < length xs
listed [] i a e = absurd (ground arith)
listed (x ∷ xs) zero a e = omega arith
listed (x ∷ xs) (suc i) a e = omega (arith, listed xs i a (ground arith))

turn_to :
    (view k i n : ℕ)
    → 0 < n
    → i < n
    → (view % n + k ≡ i) ⊎ (view % n + k ≡ i + n)
    → (view + k) % n ≡ i
turn_to view k i n h lt (inl e) = sym (mod-add-mod view n k) ∙ ap (λ x. x % n) e ∙ mod-eq_of_lt lt
turn_to view k i n h lt (inr e) =
    sym (mod-add-mod view n k) ∙ ap (λ x. x % n) e ∙ add-mod_right i n ∙ mod-eq_of_lt lt

-- Among any `n` views in a row one stands for position `i` of `n`.
turn_comes : (view i n : ℕ) → i < n → (k : ℕ) × (k < n) × ((view + k) % n ≡ i)
turn_comes view i n lt =
    let below = mod-lt view {m = n} (omega arith) in
    elim (Bool-cases (leb (view % n) i)) [
      | inl at ↦
          let le : view % n ≤ i = ground arith in
          (
            i - view % n,
            omega (arith, le),
            turn_to view (i - view % n) i n (omega arith) lt (inl (omega (arith, le))),
          )
      | inr past ↦
          let gt : i < view % n = ground arith in
          (
            i + n - view % n,
            omega (arith, gt, below),
            turn_to view (i + n - view % n) i n (omega arith) lt (inr (omega (arith, gt, below))),
          )
    ]

leads_at :
    (s : Engine) (view i : ℕ)
    → get_elem? s.validator_set i ≡ some s.validator_id
    → i < length s.validator_set
    → s.view ≤ view
    → view % length s.validator_set ≡ i
    → let (r, s') = complete_view_change view s in (r ≡ ok tt) × (is_leader s' ≡ some true)
unfolding complete_view_change is_leader get_leader
leads_at s view i at lt later turn =
    let leader : get_elem? s.validator_set (view % length s.validator_set) ≡ some s.validator_id =
      rw turn at in
    ground (arith, leader, str_eq_iff s.validator_id s.validator_id)

-- A validator that stands in the set of its own engine leads in one of any as many views in a row as
-- the set has members, if they start at the engine's view or later and fit 64 bits: the change to
-- that view succeeds, and after it the validator takes itself for the leader.
pub every_validator_leads :
    (s : Engine) (view i : ℕ)
    → get_elem? s.validator_set i ≡ some s.validator_id
    → s.view ≤ view
    → view + length s.validator_set ≤ 2 ^ 64
    → (k : ℕ) × (k < length s.validator_set)
      × (let (r, s') = complete_view_change (view + k) s in
          (r ≡ ok tt) × (is_leader s' ≡ some true))
every_validator_leads s view i at later fits =
    let lt = listed s.validator_set i s.validator_id at in
    let (k, below, turn) = turn_comes view i (length s.validator_set) lt in
    (k, below, leads_at s (view + k) i at lt (omega arith) turn)
