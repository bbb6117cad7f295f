-- ===== src/Base/Map/Size.antt =====
-- The number of entries of a map after a write.
use unauthority_core.Base.Tests.{Key, Option-cases}
use unauthority_core.Base.Lists.{length}
use unauthority_core.Base.Map.{Map, lookup, replace, insert_new, insert, insert_old, insert_absent}
use Prim.Native.Nat.{◌+◌, ◌≤◌}
use mathlib.Core.Path.{◌≡◌, refl}
use mathlib.Core.Logic.{inl, inr}
use mathlib.Core.List.{[], ◌∷◌}
use native.Mathlib.Omega.{arith}

module _ {ℓ κ} {K : Type ℓ} {V : Type κ} ⦃e : Key K⦄ (k : K) (v : V) where
  length-replace : (m : Map K V) → length (replace k v m) ≡ length m
  unfolding replace
  length-replace [] = refl
  length-replace ((j, w) ∷ m) = ground (arith, length-replace m)

  length-insert_new : (m : Map K V) → length (insert_new k v m) ≡ length m + 1
  unfolding insert_new
  length-insert_new [] = refl
  length-insert_new ((j, w) ∷ m) = ground (arith, length-insert_new m)

  pub length-insert : (m : Map K V) → length (insert k v m) ≤ length m + 1
  length-insert m = elim (Option-cases (lookup k m)) [
    | inl new ↦ rw (insert_absent k v m new) (omega (arith, length-insert_new m))
    | inr (w, old) ↦ rw (insert_old k v w m old) (omega (arith, length-replace m))
  ]
