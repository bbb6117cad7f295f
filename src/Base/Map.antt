-- ===== src/Base/Map.antt =====
-- `BTreeMap` and `BTreeSet` as association lists in key order. A key that is present is replaced
-- in its place, a new one is inserted before the first greater key.
pub mod Weigh
pub mod Every
pub mod Size
use unauthority_core.Base.Tests.{Key, if◌then◌else◌, Bool-cases, Option-cases}
use mathlib.Core.Path.{◌≡◌, ◌∙◌, refl}
use mathlib.Core.Logic.{◌≢◌, ◌⊎◌, inl, inr}
use mathlib.Core.Bool.{Bool, true, false}
use mathlib.Core.Option.{Option, none, some}
use mathlib.Core.List.{List, [], ◌∷◌}
use native.Mathlib.Omega.{arith}

abbrev pub Map {ℓ κ} : Type ℓ → Type κ → Type (ℓ ⊔ κ)
Map K V = List (K × V)

module _ {ℓ κ} {K : Type ℓ} {V : Type κ} ⦃e : Key K⦄ where
  -- `get`
  unfoldable pub lookup : K → Map K V → Option V
  lookup k [] = none
  lookup k ((j, v) ∷ m) = if e.beq k j then some v else lookup k m

  -- `contains_key`
  unfoldable pub contains : K → Map K V → Bool
  unfolding lookup
  contains k m = elim (lookup k m) [ none ↦ false | some _ ↦ true ]

  unfoldable pub replace : K → V → Map K V → Map K V
  replace k v [] = []
  replace k v ((j, w) ∷ m) = if e.beq k j then (j, v) ∷ m else (j, w) ∷ replace k v m

  unfoldable pub insert_new : K → V → Map K V → Map K V
  insert_new k v [] = (k, v) ∷ []
  insert_new k v ((j, w) ∷ m) =
      if e.key_ltb k j then (k, v) ∷ (j, w) ∷ m else (j, w) ∷ insert_new k v m

  -- `insert`
  unfoldable pub insert : K → V → Map K V → Map K V
  unfolding lookup contains replace insert_new
  insert k v m = if contains k m then replace k v m else insert_new k v m

  -- `remove`
  unfoldable pub erase : K → Map K V → Map K V
  erase k [] = []
  erase k ((j, w) ∷ m) = if e.beq k j then m else (j, w) ∷ erase k m

  pub lookup-replace :
      (j k : K) (v : V) (m : Map K V)
      → contains k m ≡ true
      → lookup j (replace k v m) ≡ (if e.beq j k then some v else lookup j m)
  unfolding lookup contains replace
  lookup-replace j k v [] h = ground arith
  lookup-replace j k v ((i, w) ∷ m) h =
      ground (arith, lookup-replace j k v m, e.beq_iff j k, e.beq_iff k i, e.beq_iff j i)

  pub lookup-insert_new :
      (j k : K) (v : V) (m : Map K V)
      → lookup k m ≡ none
      → lookup j (insert_new k v m) ≡ (if e.beq j k then some v else lookup j m)
  unfolding lookup insert_new
  lookup-insert_new j k v [] h = refl
  lookup-insert_new j k v ((i, w) ∷ m) h =
      ground (arith, lookup-insert_new j k v m, e.beq_iff j k, e.beq_iff k i, e.beq_iff j i)

  contains-none : (k : K) (m : Map K V) → lookup k m ≡ none → contains k m ≡ false
  unfolding contains
  contains-none k m h = ground arith

  contains-some : (k : K) (v : V) (m : Map K V) → lookup k m ≡ some v → contains k m ≡ true
  unfolding contains
  contains-some k v m h = ground arith

  pub insert_old :
      (k : K) (v w : V) (m : Map K V) → lookup k m ≡ some w → insert k v m ≡ replace k v m
  unfolding insert
  insert_old k v w m h = ground (arith, contains-some k w m h)

  pub insert_absent :
      (k : K) (v : V) (m : Map K V) → lookup k m ≡ none → insert k v m ≡ insert_new k v m
  unfolding insert
  insert_absent k v m h = ground (arith, contains-none k m h)

  -- What a lookup finds after a write.
  pub lookup-insert :
      (j k : K) (v : V) (m : Map K V)
      → lookup j (insert k v m) ≡ (if e.beq j k then some v else lookup j m)
  lookup-insert j k v m = elim (Option-cases (lookup k m)) [
    | inl new ↦ rw (insert_absent k v m new) (lookup-insert_new j k v m new)
    | inr (w, old) ↦ rw (insert_old k v w m old) (lookup-replace j k v m (contains-some k w m old))
  ]

  pub lookup-insert_self : (k : K) (v : V) (m : Map K V) → lookup k (insert k v m) ≡ some v
  lookup-insert_self k v m = ground (arith, lookup-insert k k v m, e.beq_iff k k)

  pub lookup-insert_ne :
      (j k : K) (v : V) (m : Map K V) → j ≢ k → lookup j (insert k v m) ≡ lookup j m
  lookup-insert_ne j k v m h = ground (arith, lookup-insert j k v m, e.beq_iff j k)

  pub contains-insert :
      (j k : K) (v : V) (m : Map K V)
      → contains j (insert k v m) ≡ (if e.beq j k then true else contains j m)
  unfolding contains
  contains-insert j k v m = ground (arith, lookup-insert j k v m)

  -- No key is listed twice.
  abbrev pub HasDistinctKeys : Map K V → Type κ
  HasDistinctKeys [] = Unit
  HasDistinctKeys ((k, v) ∷ m) = (lookup k m ≡ none) × HasDistinctKeys m

  replace-HasDistinctKeys :
      (k : K) (v w : V) (m : Map K V)
      → lookup k m ≡ some w
      → HasDistinctKeys m
      → HasDistinctKeys (replace k v m)
  unfolding lookup replace
  replace-HasDistinctKeys k v w [] h d = tt
  replace-HasDistinctKeys k v w ((j, x) ∷ m) h d = elim (Bool-cases (e.beq k j)) [
    | inl same ↦ rw same d
    | inr other ↦ rw other (
      ground (arith, lookup-replace j k v m, contains-some k w m, e.beq_iff j k, e.beq_iff k j),
      replace-HasDistinctKeys k v w m (ground arith) d.1,
    )
  ]

  insert_new-HasDistinctKeys :
      (k : K) (v : V) (m : Map K V)
      → lookup k m ≡ none
      → HasDistinctKeys m
      → HasDistinctKeys (insert_new k v m)
  unfolding lookup insert_new
  insert_new-HasDistinctKeys k v [] h d = (refl, tt)
  insert_new-HasDistinctKeys k v ((j, x) ∷ m) h d = elim (Bool-cases (e.key_ltb k j)) [
    | inl first ↦ rw first (h, d)
    | inr later ↦ rw later (
      ground (arith, lookup-insert_new j k v m, e.beq_iff j k, e.beq_iff k j),
      insert_new-HasDistinctKeys k v m (ground arith) d.1,
    )
  ]

  pub insert-HasDistinctKeys :
      (k : K) (v : V) (m : Map K V) → HasDistinctKeys m → HasDistinctKeys (insert k v m)
  insert-HasDistinctKeys k v m d = elim (Option-cases (lookup k m)) [
    | inl new ↦ rw (insert_absent k v m new) (insert_new-HasDistinctKeys k v m new d)
    | inr (w, old) ↦ rw (insert_old k v w m old) (replace-HasDistinctKeys k v w m old d)
  ]

module _ {ℓ κ} {K : Type ℓ} {V : Type κ} ⦃e : Key K⦄ where
  pub lookup-erase_ne : (j k : K) (m : Map K V) → j ≢ k → lookup j (erase k m) ≡ lookup j m
  unfolding lookup erase
  lookup-erase_ne j k [] h = refl
  lookup-erase_ne j k ((i, w) ∷ m) h =
      ground (arith, lookup-erase_ne j k m h, e.beq_iff k i, e.beq_iff j i)

  pub lookup-erase_self : (k : K) (m : Map K V) → HasDistinctKeys m → lookup k (erase k m) ≡ none
  unfolding lookup erase
  lookup-erase_self k [] d = refl
  lookup-erase_self k ((i, w) ∷ m) d = elim (Bool-cases (e.beq k i)) [
    | inl same ↦ let same' : k ≡ i = (e.beq_iff k i).0 same in rw same (rw same' d.0)
    | inr other ↦ ground (arith, lookup-erase_self k m d.1)
  ]

  pub erase-HasDistinctKeys :
      (k : K) (m : Map K V) → HasDistinctKeys m → HasDistinctKeys (erase k m)
  unfolding lookup erase
  erase-HasDistinctKeys k [] d = tt
  erase-HasDistinctKeys k ((i, w) ∷ m) d = elim (Bool-cases (e.beq k i)) [
    | inl same ↦ rw same d.1
    | inr other ↦ rw other (
      ground (arith, lookup-erase_ne i k m, e.beq_iff k i, e.beq_iff i k),
      erase-HasDistinctKeys k m d.1,
    )
  ]

  replace_same : (k : K) (v : V) (m : Map K V) → lookup k m ≡ some v → replace k v m ≡ m
  unfolding lookup replace
  replace_same k v [] h = refl
  replace_same k v ((i, w) ∷ m) h = ground (arith, replace_same k v m)

  -- Writing what already stands at a key changes nothing.
  pub insert_same : (k : K) (v : V) (m : Map K V) → lookup k m ≡ some v → insert k v m ≡ m
  insert_same k v m h = insert_old k v v m h ∙ replace_same k v m h

abbrev pub Set {ℓ} : Type ℓ → Type ℓ
Set K = Map K (Unit {0})
