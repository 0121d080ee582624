-- ===== src/Prelude/Int.antt =====
-- Signed integers over the native numbers. `negsuc n` is -(n + 1).
use Prim.Native.Nat.{ℕ}
use mathlib.Core.Bool.{Bool, true, false}
use sealvault.Prelude.Tests.{ltb}

pub data ℤ : Type 0 where
  pos : ℕ → ℤ
  negsuc : ℕ → ℤ

-- The order of Rust's signed integers.
abbrev pub ltbℤ : ℤ → ℤ → Bool
ltbℤ (pos a) (pos b) = ltb a b
ltbℤ (pos a) (negsuc b) = false
ltbℤ (negsuc a) (pos b) = true
ltbℤ (negsuc a) (negsuc b) = ltb b a
