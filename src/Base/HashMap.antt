-- ===== src/Base/HashMap.antt =====
-- `std::collections::HashMap` as an association list, for a key type with an equality test.
use mathlib.Core.Path.{◌≡◌, refl}
use mathlib.Core.Logic.{◌↔◌, inl, inr}
use mathlib.Core.Bool.{Bool, true, false}
use mathlib.Core.Option.{Option, none, some}
use mathlib.Core.List.{List, [], ◌∷◌}
use Prim.Native.Nat.{◌+◌, ◌≤◌}
use native.Mathlib.Omega.{arith}
use vaultex.Base.Booleans.{if◌then◌else◌, Bool-cases}
use vaultex.Base.Lists.{length}

pub record Eq {ℓ} (A : Type ℓ) : Type ℓ where
  pub equals : A → A → Bool
  pub equals_iff : (x y : A) → (equals x y ≡ true) ↔ (x ≡ y)

abbrev pub HashMap {ℓ κ} : Type ℓ → Type κ → Type (ℓ ⊔ κ)
HashMap K V = List (K × V)

pub equals_self {ℓ} : {K : Type ℓ} ⦃e : Eq K⦄ (k : K) → e.equals k k ≡ true
equals_self ⦃e⦄ k = (e.equals_iff k k).1 refl

module _ {ℓ κ} {K : Type ℓ} {V : Type κ} ⦃e : Eq K⦄ where
  unfoldable pub lookup : K → HashMap K V → Option V
  lookup k [] = none
  lookup k ((j, v) ∷ m) = if e.equals k j then some v else lookup k m

  unfoldable pub remove : K → HashMap K V → HashMap K V
  remove k [] = []
  remove k ((j, v) ∷ m) = let rest = remove k m in if e.equals k j then rest else (j, v) ∷ rest

  unfoldable pub insert : K → V → HashMap K V → HashMap K V
  unfolding remove
  insert k v m = (k, v) ∷ remove k m

  pub lookup-empty : (k : K) (m : HashMap K V) → m ≡ [] → lookup k m ≡ none
  unfolding lookup
  lookup-empty k [] h = refl
  lookup-empty k (x ∷ m) h = ground arith

  pub lookup-remove_self : (k : K) (m : HashMap K V) → lookup k (remove k m) ≡ none
  unfolding lookup remove
  lookup-remove_self k [] = refl
  lookup-remove_self k ((j, v) ∷ m) = elim (Bool-cases (e.equals k j)) [
    | inl same ↦ rw same (lookup-remove_self k m)
    | inr other ↦ rw (other, other) (lookup-remove_self k m)
  ]

  pub lookup-remove_ne :
      (j k : K) (m : HashMap K V) → e.equals j k ≡ false → lookup j (remove k m) ≡ lookup j m
  unfolding lookup remove
  lookup-remove_ne j k [] h = refl
  lookup-remove_ne j k ((i, v) ∷ m) h = elim (Bool-cases (e.equals k i)) [
    | inl same ↦
        let at : k ≡ i = (e.equals_iff k i).0 same in
        let off : e.equals j i ≡ false = rw at at h in rw (same, off) (lookup-remove_ne j k m h)
    | inr other ↦ rw other (rw (lookup-remove_ne j k m h))
  ]

  pub lookup-insert_self : (k : K) (v : V) (m : HashMap K V) → lookup k (insert k v m) ≡ some v
  unfolding lookup insert
  lookup-insert_self k v m = rw (equals_self k)

  pub lookup-insert_ne :
      (j k : K) (v : V) (m : HashMap K V)
      → e.equals j k ≡ false
      → lookup j (insert k v m) ≡ lookup j m
  unfolding lookup insert
  lookup-insert_ne j k v m h = rw h (lookup-remove_ne j k m h)

  pub length-remove : (k : K) (m : HashMap K V) → length (remove k m) ≤ length m
  unfolding remove
  length-remove k [] = omega arith
  length-remove k ((j, v) ∷ m) = ground (arith, length-remove k m)

  pub length-insert : (k : K) (v : V) (m : HashMap K V) → length (insert k v m) ≤ length m + 1
  unfolding insert
  length-insert k v m = omega (arith, length-remove k m)
