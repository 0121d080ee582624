-- ===== src/Prelude/Result.antt =====
-- `Result` of Rust, over any error type.
use mathlib.Core.Path.{◌≡◌, refl}
use mathlib.Core.Logic.{◌⊎◌, inl, inr}
use mathlib.Core.Option.{Option, none, some}

pub data Result {ℓ κ} (E : Type ℓ) (A : Type κ) : Type (ℓ ⊔ κ) where
  ok : A → Result E A
  err : E → Result E A

infixl 10 ◌>>=◌
abbrev pub ◌>>=◌ {ℓ κ μ} :
    {E : Type ℓ} {A : Type κ} {B : Type μ} → Result E A → (A → Result E B) → Result E B
ok a >>= f = f a
err e >>= f = err e

abbrev pub map_err {ℓ κ μ} :
    {E : Type ℓ} {F : Type κ} {A : Type μ} → (E → F) → Result E A → Result F A
map_err f (ok a) = ok a
map_err f (err e) = err (f e)

abbrev pub ok_or {ℓ κ} : {E : Type ℓ} {A : Type κ} → E → Option A → Result E A
ok_or e none = err e
ok_or e (some a) = ok a

pub Result-cases {ℓ κ} :
    {E : Type ℓ} {A : Type κ} (r : Result E A) → ((e : E) × (r ≡ err e)) ⊎ ((a : A) × (r ≡ ok a))
Result-cases (err e) = inl (e, refl)
Result-cases (ok a) = inr (a, refl)
