-- ===== src/Prelude/Exec.antt =====
-- Computations over a state that may fail. What was written before a failure stays written.
use mathlib.Core.Path.{◌≡◌, refl}
use mathlib.Core.Logic.{◌⊎◌, inl, inr}
use sealvault.Prelude.Result.{Result, ok, err}

abbrev pub Exec {ℓ κ μ} : Type ℓ → Type κ → Type μ → Type (ℓ ⊔ κ ⊔ μ)
Exec S E A = S → Result E A × S

module _ {ℓ} {S E A : Type ℓ} where
  abbrev pub pure : A → Exec S E A
  pure a s = (ok a, s)

  abbrev pub raise : E → Exec S E A
  raise e s = (err e, s)

  abbrev pub lift : Result E A → Exec S E A
  lift r s = (r, s)

  abbrev pub gets : (S → A) → Exec S E A
  gets f s = (ok (f s), s)

module _ {ℓ} {S E A B : Type ℓ} where
  abbrev pub continue : Result E A → (A → Exec S E B) → Exec S E B
  continue (ok a) f s = f a s
  continue (err e) f s = (err e, s)

  infixl 10 ◌>>=◌ ◌>>◌
  abbrev pub ◌>>=◌ : Exec S E A → (A → Exec S E B) → Exec S E B
  ◌>>=◌ m f s = let (r, s') = m s in continue r f s'

  abbrev pub ◌>>◌ : Exec S E A → Exec S E B → Exec S E B
  m >> n = m >>= λ _. n

-- A sequence that succeeds has a first part that succeeds.
pub continue-eq-ok {ℓ} :
    {S E A B : Type ℓ} (r : Result E A) (f : A → Exec S E B) (s : S) {t : S} {b : B}
    → continue r f s ≡ (ok b, t)
    → (a : A) × (r ≡ ok a) × (f a s ≡ (ok b, t))
continue-eq-ok (ok a) f s h = (a, refl, h)
continue-eq-ok (err e) f s h = cc

-- A sequence that fails has a first part that fails, or a second one.
pub continue-eq-err {ℓ} :
    {S E A B : Type ℓ} (r : Result E A) (f : A → Exec S E B) (s : S) {t : S} {e : E}
    → continue r f s ≡ (err e, t)
    → ((r ≡ err e) × (s ≡ t)) ⊎ ((a : A) × (r ≡ ok a) × (f a s ≡ (err e, t)))
continue-eq-err (ok a) f s h = inr (a, refl, h)
continue-eq-err (err e) f s h = inl (cc, cc)
