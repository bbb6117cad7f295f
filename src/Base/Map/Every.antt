-- ===== src/Base/Map/Every.antt =====
-- What holds of every entry of a map, and what keeps it.
use unauthority_core.Base.Tests.{Key, Bool-cases}
use unauthority_core.Base.Map.{
  Map, lookup, insert, erase, HasDistinctKeys, lookup-insert, lookup-erase_ne, lookup-erase_self,
}
use mathlib.Core.Path.{◌≡◌}
use mathlib.Core.Logic.{inl, inr}
use mathlib.Core.Option.{some}
use native.Mathlib.Omega.{arith}

module _ {ℓ κ π} {K : Type ℓ} {V : Type κ} ⦃e : Key K⦄ (P : K → V → Type π) where
  abbrev pub Every : Map K V → Type (ℓ ⊔ (κ ⊔ π))
  Every m = (k : K) (v : V) → lookup k m ≡ some v → P k v

  pub insert-Every : (k : K) (v : V) (m : Map K V) → P k v → Every m → Every (insert k v m)
  insert-Every k v m p h j w q = elim (Bool-cases (e.beq j k)) [
    | inl same ↦
        let there : lookup j (insert k v m) ≡ some v = ground (arith, lookup-insert j k v m) in
        let same_value : w ≡ v = ground (arith) in
        let same_key : j ≡ k = (e.beq_iff j k).0 same in rw (same_key, same_value) p
    | inr other ↦ h j w (ground (arith, lookup-insert j k v m))
  ]

  pub erase-Every : (k : K) (m : Map K V) → HasDistinctKeys m → Every m → Every (erase k m)
  erase-Every k m d h j w q = elim (Bool-cases (e.beq j k)) [
    | inl same ↦
        let same_key : j ≡ k = (e.beq_iff j k).0 same in
        absurd (ground (arith, lookup-erase_self k m d, same_key))
    | inr other ↦ h j w (ground (arith, lookup-erase_ne j k m, e.beq_iff j k))
  ]
