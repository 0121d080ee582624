-- ===== src/Prelude/Assoc.antt =====
-- Maps as association lists, over keys with a Boolean equality.
use sealvault.Prelude.Tests.{if◌then◌else◌}
use mathlib.Core.Path.{◌≡◌, refl}
use mathlib.Core.Logic.{◌↔◌}
use mathlib.Core.Bool.{Bool, true}
use mathlib.Core.Option.{Option, none, some}
use mathlib.Core.List.{List, [], ◌∷◌}
use native.Mathlib.Omega.{arith}

pub record KeyEq {ℓ} (A : Type ℓ) : Type ℓ where
  pub same : A → A → Bool
  pub same_iff : (a b : A) → (same a b ≡ true) ↔ (a ≡ b)

module _ {ℓ κ} {K : Type ℓ} {V : Type κ} ⦃e : KeyEq K⦄ where
  unfoldable pub lookup : K → List (K × V) → Option V
  lookup k [] = none
  lookup k ((j, v) ∷ m) = if e.same j k then some v else lookup k m

  unfoldable pub insert : K → V → List (K × V) → List (K × V)
  insert k v [] = (k, v) ∷ []
  insert k v ((j, w) ∷ m) = if e.same j k then (k, v) ∷ m else (j, w) ∷ insert k v m

  unfoldable pub remove : K → List (K × V) → List (K × V)
  remove k [] = []
  remove k ((j, v) ∷ m) = let rest = remove k m in if e.same j k then rest else (j, v) ∷ rest

  pub lookup-insert :
      (k j : K) (v : V) (m : List (K × V))
      → lookup j (insert k v m) ≡ (if e.same k j then some v else lookup j m)
  unfolding lookup insert
  lookup-insert k j v [] = refl
  lookup-insert k j v ((i, w) ∷ m) =
      ground (arith, e.same_iff k j, e.same_iff i k, e.same_iff i j, lookup-insert k j v m)

  pub lookup-remove :
      (k j : K) (m : List (K × V))
      → lookup j (remove k m) ≡ (if e.same k j then none else lookup j m)
  unfolding lookup remove
  lookup-remove k j [] = ground arith
  lookup-remove k j ((i, w) ∷ m) =
      ground (arith, e.same_iff k j, e.same_iff i k, e.same_iff i j, lookup-remove k j m)
