-- ===== src/Prelude/Lists.antt =====
-- Lists measured by native numbers, membership by recursion, and lists of code points and bytes.
use Prim.Native.Nat.{ℕ, zero, suc, ◌+◌, ◌-◌, ◌<◌, min}
use Prim.Native.Char.{code}
use Prim.Native.String.{String}
use mathlib.Core.Path.{◌≡◌, refl, ap}
use mathlib.Core.Logic.{◌⊎◌}
use mathlib.Core.Bool.{Bool, true, false, ◌&&◌}
use mathlib.Core.List.{List, [], ◌∷◌, ◌++◌}
use native.Mathlib.Nat.{zero-add, suc-add}
use native.Mathlib.Omega.{arith}
use sealvault.Prelude.Tests.{◌==◌}

-- A text as the list of its code points, or a vector of bytes.
abbrev pub Text : Type 0
Text = List ℕ

abbrev pub codes : String → Text
codes String.[] = []
codes (String.◌∷◌ c s) = code c ∷ codes s

abbrev pub text_eq : Text → Text → Bool
text_eq [] [] = true
text_eq [] (_ ∷ _) = false
text_eq (_ ∷ _) [] = false
text_eq (a ∷ s) (b ∷ t) = a == b && text_eq s t

pub text_eq_refl : (s : Text) → text_eq s s ≡ true
text_eq_refl [] = refl
text_eq_refl (a ∷ s) = ground (arith, text_eq_refl s)

pub text_eq→≡ : (s t : Text) → text_eq s t ≡ true → s ≡ t
text_eq→≡ [] [] h = refl
text_eq→≡ [] (_ ∷ _) h = cc
text_eq→≡ (_ ∷ _) [] h = cc
text_eq→≡ (a ∷ s) (b ∷ t) h = ground (arith, text_eq→≡ s t)

module _ {ℓ} {A : Type ℓ} where
  abbrev pub length : List A → ℕ
  length [] = 0
  length (x ∷ xs) = suc (length xs)

  abbrev pub take : ℕ → List A → List A
  take zero xs = []
  take (suc n) [] = []
  take (suc n) (x ∷ xs) = x ∷ take n xs

  abbrev pub drop : ℕ → List A → List A
  drop zero xs = xs
  drop (suc n) [] = []
  drop (suc n) (x ∷ xs) = drop n xs

  pub length-append : (xs ys : List A) → length (xs ++ ys) ≡ length xs + length ys
  length-append [] ys = omega arith
  length-append (x ∷ xs) ys = omega (arith, length-append xs ys)

  pub take-append : (xs ys : List A) → take (length xs) (xs ++ ys) ≡ xs
  take-append [] ys = refl
  take-append (x ∷ xs) ys = ap (λ (zs : List A). x ∷ zs) (take-append xs ys)

  pub drop-append : (xs ys : List A) → drop (length xs) (xs ++ ys) ≡ ys
  drop-append [] ys = refl
  drop-append (x ∷ xs) ys = drop-append xs ys

  pub take-append-drop : (n : ℕ) (xs : List A) → take n xs ++ drop n xs ≡ xs
  take-append-drop zero xs = refl
  take-append-drop (suc n) [] = refl
  take-append-drop (suc n) (x ∷ xs) = ap (λ (zs : List A). x ∷ zs) (take-append-drop n xs)

  pub length-take : (n : ℕ) (xs : List A) → length (take n xs) ≡ min n (length xs)
  length-take zero xs = omega arith
  length-take (suc n) [] = omega arith
  length-take (suc n) (x ∷ xs) = omega (arith, length-take n xs)

  pub length-drop : (n : ℕ) (xs : List A) → length (drop n xs) ≡ length xs - n
  length-drop zero xs = omega arith
  length-drop (suc n) [] = omega arith
  length-drop (suc n) (x ∷ xs) = omega (arith, length-drop n xs)

-- `P` holds of every entry.
abbrev pub All {ℓ κ} : {A : Type ℓ} → (A → Type κ) → List A → Type κ
All P [] = Unit
All P (x ∷ xs) = P x × All P xs

-- Membership by recursion, which the tactics read.
abbrev pub Elem : {A : Type 0} → A → List A → Type 0
Elem a [] = ⊥
Elem a (x ∷ xs) = (a ≡ x) ⊎ Elem a xs

abbrev pub elem : ℕ → List ℕ → Bool
elem a [] = false
elem a (x ∷ xs) = elim (a == x) [ true ↦ true | false ↦ elem a xs ]

-- A bound on every entry is a bound on what `elem` finds.
pub elem-lt : (n a : ℕ) (xs : List ℕ) → All (λ x. x < n) xs → elem a xs ≡ true → a < n
elem-lt n a [] h e = cc
elem-lt n a (x ∷ xs) h e = ground (arith, elem-lt n a xs h.1)

-- A test that is run on every number below a bound.
unfoldable pub every_below : (ℕ → Bool) → ℕ → Bool
every_below test zero = true
every_below test (suc k) = elim (test k) [ true ↦ every_below test k | false ↦ false ]

pub every_below-lt :
    (test : ℕ → Bool) (bound i : ℕ) → i < bound → every_below test bound ≡ true → test i ≡ true
unfolding every_below
every_below-lt test zero i lt run = absurd (omega arith)
every_below-lt test (suc k) i lt run =
    let below : i < k → every_below test k ≡ true → test i ≡ true = every_below-lt test k i in
    ground arith

module _ {ℓ} {A : Type ℓ} where
  pub take-nil : (n : ℕ) → ◌≡◌ {A = List A} (take n []) []
  take-nil zero = refl
  take-nil (suc n) = refl

  pub drop-nil : (n : ℕ) → ◌≡◌ {A = List A} (drop n []) []
  drop-nil zero = refl
  drop-nil (suc n) = refl

  pub take-length : (xs : List A) (n : ℕ) → length xs ≡ n → take n xs ≡ xs
  take-length [] n h = take-nil n
  take-length (x ∷ xs) zero h = absurd (omega arith)
  take-length (x ∷ xs) (suc n) h = ap (λ (zs : List A). x ∷ zs) (take-length xs n (omega arith))

  pub take_add : (m n : ℕ) (xs : List A) → take (m + n) xs ≡ take m xs ++ take n (drop m xs)
  take_add zero n xs = rw (zero-add)
  take_add (suc m) n [] = rw (suc-add, take-nil n)
  take_add (suc m) n (x ∷ xs) = rw suc-add (ap (λ (zs : List A). x ∷ zs) (take_add m n xs))

  pub drop_add : (m n : ℕ) (xs : List A) → drop (m + n) xs ≡ drop n (drop m xs)
  drop_add zero n xs = rw zero-add
  drop_add (suc m) n [] = rw (suc-add, drop-nil n)
  drop_add (suc m) n (x ∷ xs) = rw suc-add (drop_add m n xs)

module _ {ℓ κ} {A : Type ℓ} (P : A → Type κ) where
  pub All-take : (n : ℕ) (xs : List A) → All P xs → All P (take n xs)
  All-take zero xs h = tt
  All-take (suc n) [] h = tt
  All-take (suc n) (x ∷ xs) h = (h.0, All-take n xs h.1)

  pub All-drop : (n : ℕ) (xs : List A) → All P xs → All P (drop n xs)
  All-drop zero xs h = h
  All-drop (suc n) [] h = tt
  All-drop (suc n) (x ∷ xs) h = All-drop n xs h.1

  pub All-append : (xs ys : List A) → All P xs → All P ys → All P (xs ++ ys)
  All-append [] ys h k = k
  All-append (x ∷ xs) ys h k = (h.0, All-append xs ys h.1 k)
