-- ===== src/Base/Map/Weigh.antt =====
-- The sum of a weight over the entries of a map, under each update.
use unauthority_core.Base.Tests.{Key, Bool-cases, Option-cases}
use unauthority_core.Base.Map.{
  Map, lookup, replace, insert_new, insert, insert_old, insert_absent, HasDistinctKeys,
}
use Prim.Native.Nat.{ℕ, ◌+◌, ◌≤◌}
use mathlib.Core.Path.{◌≡◌, refl}
use mathlib.Core.Logic.{◌≢◌, inl, inr}
use mathlib.Core.Option.{Option, none, some}
use mathlib.Core.List.{[], ◌∷◌}
use native.Mathlib.Omega.{arith}

module _ {ℓ κ} {K : Type ℓ} {V : Type κ} where
  unfoldable pub weigh : (K → V → ℕ) → Map K V → ℕ
  weigh w [] = 0
  weigh w ((k, v) ∷ m) = w k v + weigh w m

  -- The weight of what stands at a key.
  abbrev pub weight_at : (K → V → ℕ) → K → Option V → ℕ
  weight_at w k none = 0
  weight_at w k (some v) = w k v

module _ {ℓ κ} {K : Type ℓ} {V : Type κ} ⦃e : Key K⦄ (w : K → V → ℕ) where
  weigh-replace :
      (k : K) (v old : V) (m : Map K V)
      → lookup k m ≡ some old
      → weigh w (replace k v m) + w k old ≡ weigh w m + w k v
  unfolding lookup replace weigh
  weigh-replace k v old [] h = ground arith
  weigh-replace k v old ((j, x) ∷ m) h = elim (Bool-cases (e.beq k j)) [
    | inl same ↦ let same' : k ≡ j = (e.beq_iff k j).0 same in ground (arith)
    | inr other ↦ ground (arith, weigh-replace k v old m)
  ]

  weigh-insert_new : (k : K) (v : V) (m : Map K V) → weigh w (insert_new k v m) ≡ weigh w m + w k v
  unfolding insert_new weigh
  weigh-insert_new k v [] = omega arith
  weigh-insert_new k v ((j, x) ∷ m) = ground (arith, weigh-insert_new k v m)

  -- A write replaces the weight of what stood at its key.
  pub weigh-insert :
      (k : K) (v : V) (m : Map K V)
      → weigh w (insert k v m) + weight_at w k (lookup k m) ≡ weigh w m + w k v
  weigh-insert k v m = elim (Option-cases (lookup k m)) [
    | inl new ↦ rw (insert_absent k v m new) (ground (arith, weigh-insert_new k v m))
    | inr (old, at) ↦ rw (insert_old k v old m at) (ground (arith, weigh-replace k v old m at))
  ]

  pub weight_at-le-weigh : (k : K) (m : Map K V) → weight_at w k (lookup k m) ≤ weigh w m
  unfolding lookup weigh
  weight_at-le-weigh k [] = omega arith
  weight_at-le-weigh k ((j, x) ∷ m) = ground (arith, weight_at-le-weigh k m, e.beq_iff k j)

module _ {ℓ κ} {K : Type ℓ} {V : Type κ} ⦃e : Key K⦄ (w w' : K → V → ℕ) (h : K)
    (same : (k : K) (v : V) → k ≢ h → w' k v ≡ w k v) where
  -- A weight that changes only at a key that is absent.
  pub weigh_absent : (m : Map K V) → lookup h m ≡ none → weigh w' m ≡ weigh w m
  unfolding lookup weigh
  weigh_absent [] n = refl
  weigh_absent ((k, v) ∷ m) n = ground (arith, weigh_absent m, same k v, e.beq_iff h k)

  -- A weight that changes only at a key that is present once.
  pub weigh_present :
      (b : V) (m : Map K V)
      → HasDistinctKeys m
      → lookup h m ≡ some b
      → weigh w' m + w h b ≡ weigh w m + w' h b
  unfolding lookup weigh
  weigh_present b [] d n = ground arith
  weigh_present b ((k, v) ∷ m) d n = elim (Bool-cases (e.beq h k)) [
    | inl at ↦ let at' : h ≡ k = (e.beq_iff h k).0 at in ground (arith, weigh_absent m)
    | inr other ↦ ground (arith, weigh_present b m d.1, same k v, e.beq_iff h k)
  ]
