-- ===== src/Encryption/KeyMaterial.antt =====
-- core/src/encryption/key_material.rs: key bytes of a fixed length that are not all zero.
use sealvault.Prelude.{
  ℕ, Text, ◌≡◌, Bool, true, false, ◌&&◌, [], ◌∷◌, ◌==◌, length, if◌then◌else◌, arith,
}
use sealvault.Prelude.Result.{Result, ok, err}
use sealvault.Error.{Error}

-- Comparison with the default array.
abbrev pub all_zero : Text → Bool
all_zero [] = true
all_zero (b ∷ bs) = b == 0 && all_zero bs

-- `KeyMaterial::new`
unfoldable pub new : Text → Result Error Text
new buffer = if all_zero buffer then err (Error.fatal "Invariant violation") else ok buffer

-- `KeyMaterial::<N>::from_slice`, at the length `n`
unfoldable pub from_slice : ℕ → Text → Result Error Text
unfolding new
from_slice n bytes =
    if length bytes == n then new bytes else err (Error.fatal "Invariant violation")

-- Key material of `n` bytes, as the type `KeyMaterial<N>` guarantees it.
pub record IsKeyMaterial (n : ℕ) (bytes : Text) : Type 0 where
  pub len : length bytes ≡ n
  pub nonzero : all_zero bytes ≡ false

-- A slice is accepted just when it is key material, and then it is taken over unchanged.
pub from_slice-eq-ok :
    (n : ℕ) (bytes : Text) → IsKeyMaterial n bytes → from_slice n bytes ≡ ok bytes
unfolding from_slice
from_slice-eq-ok n bytes v = ground (arith, v.len, v.nonzero)

pub from_slice-IsKeyMaterial :
    (n : ℕ) (bytes k : Text) → from_slice n bytes ≡ ok k → IsKeyMaterial n k × (k ≡ bytes)
unfolding from_slice
from_slice-IsKeyMaterial n bytes k h =
    let e : bytes ≡ k = ground arith in
    (record { len = ground arith; nonzero = ground arith }, ground arith)
