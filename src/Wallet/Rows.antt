-- ===== src/Wallet/Rows.antt =====
-- The queries of the database crate, over a table as a list of rows: `first` with a filter, and the
-- update of every row that a filter selects.
use sealvault.Prelude.{
  Text, Bool, true, false, ◌||◌, List, [], ◌∷◌, ◌++◌, Option, none, some, ◌≡◌, refl, arith, text_eq,
  if◌then◌else◌, Bool-cases, inl, inr, ap, ◌∙◌,
}

module _ {A : Type 0} where
  unfoldable pub first : (A → Bool) → List A → Option A
  first p [] = none
  first p (x ∷ xs) = let rest = first p xs in if p x then some x else rest

  unfoldable pub exists : (A → Bool) → List A → Bool
  exists p [] = false
  exists p (x ∷ xs) = p x || exists p xs

  unfoldable pub filter : (A → Bool) → List A → List A
  filter p [] = []
  filter p (x ∷ xs) = let rest = filter p xs in if p x then x ∷ rest else rest

  unfoldable pub update_rows : (A → Bool) → (A → A) → List A → List A
  update_rows p f [] = []
  update_rows p f (x ∷ xs) = let rest = update_rows p f xs in (if p x then f x else x) ∷ rest

  -- A row that a search finds satisfies its filter.
  pub first-some : (p : A → Bool) (xs : List A) {x : A} → first p xs ≡ some x → p x ≡ true
  unfolding first
  first-some p [] h = cc
  first-some p (y ∷ xs) {x} h =
      let rest : first p xs ≡ some x → p x ≡ true = first-some p xs in ground arith

  pub first-one : (p : A → Bool) (x : A) → p x ≡ true → first p (x ∷ []) ≡ some x
  unfolding first
  first-one p x h = ground arith

  -- An update that keeps the filter is seen in what is found.
  pub first-update_rows :
      (p : A → Bool) (f : A → A) (xs : List A) {y : A}
      → ((x : A) → p (f x) ≡ p x)
      → first p (update_rows p f xs) ≡ some y
      → (x : A) × (first p xs ≡ some x) × (y ≡ f x)
  unfolding first update_rows
  first-update_rows p f [] keeps h = cc
  first-update_rows p f (x ∷ xs) {y} keeps h = elim (Bool-cases (p x)) [
    | inl here ↦ (x, ground arith, ground (arith, keeps x))
    | inr there ↦
        let (z, found, same) = first-update_rows p f xs {y = y} keeps (ground (arith, keeps x)) in
        (z, ground arith, same)
  ]

  -- A new row does not change what is found before it.
  pub first-append-some :
      (p : A → Bool) (xs ys : List A) {x : A} → first p xs ≡ some x → first p (xs ++ ys) ≡ some x
  unfolding first
  first-append-some p [] ys h = cc
  first-append-some p (y ∷ xs) ys {x} h =
      let rest : first p xs ≡ some x → first p (xs ++ ys) ≡ some x = first-append-some p xs ys in
      ground arith

  -- A search that fails goes on in the rows behind.
  pub first-append-none :
      (p : A → Bool) (xs ys : List A) → first p xs ≡ none → first p (xs ++ ys) ≡ first p ys
  unfolding first
  first-append-none p [] ys h = refl
  first-append-none p (y ∷ xs) ys h =
      let rest : first p xs ≡ none → first p (xs ++ ys) ≡ first p ys = first-append-none p xs ys in
      ground arith

  -- A new row is found where none was found before.
  pub first-appended :
      (p : A → Bool) (xs ys : List A) (y : A)
      → ys ≡ xs ++ (y ∷ [])
      → first p xs ≡ none
      → p y ≡ true
      → first p ys ≡ some y
  first-appended p xs ys y e none_before h =
      ap (λ (zs : List A). first p zs) e
      ∙ (first-append-none p xs (y ∷ []) none_before ∙ first-one p y h)

-- The value of a nullable column
abbrev pub is_some_text : Text → Option Text → Bool
is_some_text t none = false
is_some_text t (some u) = text_eq u t
