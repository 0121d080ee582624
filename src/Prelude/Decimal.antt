-- ===== src/Prelude/Decimal.antt =====
-- Decimal text: `Display` and `FromStr` of Rust's `i64` on the values that are not negative.
use Prim.Native.Nat.{ℕ, zero, suc, ◌+◌, ◌-◌, ◌*◌, ◌/◌, ◌%◌, ◌<◌, ◌≤◌, ◌^◌}
use mathlib.Core.Path.{◌≡◌}
use mathlib.Core.Bool.{Bool, true, false, ◌&&◌}
use mathlib.Core.Option.{Option, none, some}
use mathlib.Core.List.{[], ◌∷◌}
use mathlib.Core.Logic.{inl, inr}
use native.Mathlib.Omega.{arith}
use sealvault.Prelude.Tests.{ltb, leb, if◌then◌else◌, Bool-cases}
use sealvault.Prelude.Lists.{Text, All}

abbrev pub is_digit : ℕ → Bool
is_digit c = leb b'0' c && leb c b'9'

-- The digits of `n` in front of `acc`; each round divides by ten.
show_loop : ℕ → ℕ → Text → Text
show_loop zero n acc = acc
show_loop (suc fuel) n acc =
    let rest = show_loop fuel (n / 10) ((48 + n % 10) ∷ acc) in
    if ltb n 10 then (48 + n) ∷ acc else rest

unfoldable pub show : ℕ → Text
unfolding show_loop
show n = show_loop (suc n) n []

-- The value of the digits after a first part of value `n`; `none` at any other character.
read_loop : ℕ → Text → Option ℕ
read_loop n [] = some n
read_loop n (c ∷ s) = elim (is_digit c) [ true ↦ read_loop (n * 10 + (c - 48)) s | false ↦ none ]

abbrev pub max_i64 : ℕ
max_i64 = 2 ^ 63 - 1

in_range : Option ℕ → Option ℕ
in_range none = none
in_range (some n) = if leb n max_i64 then some n else none

-- `str::parse::<i64>` on a text without a sign.
unfoldable pub read : Text → Option ℕ
unfolding read_loop in_range
read [] = none
read (c ∷ s) = in_range (read_loop 0 (c ∷ s))

-- Digits that `show_loop` puts in front are read first.
read_loop-show_loop :
    (fuel n : ℕ) (acc : Text) → n < fuel → read_loop 0 (show_loop fuel n acc) ≡ read_loop n acc
unfolding show_loop read_loop
read_loop-show_loop zero n acc h = absurd (omega arith)
read_loop-show_loop (suc fuel) n acc h = elim (Bool-cases (ltb n 10)) [
  | inl small ↦ ground arith
  | inr large ↦
      ground (arith, read_loop-show_loop fuel (n / 10) ((48 + n % 10) ∷ acc) (ground arith))
]

All-is_digit-show_loop :
    (fuel n : ℕ) (acc : Text)
    → n < fuel
    → All (λ c. is_digit c ≡ true) acc
    → All (λ c. is_digit c ≡ true) (show_loop fuel n acc)
unfolding show_loop
All-is_digit-show_loop zero n acc h v = absurd (omega arith)
All-is_digit-show_loop (suc fuel) n acc h v = elim (Bool-cases (ltb n 10)) [
  | inl small ↦ rw (small, show_loop) (ground arith, v)
  | inr large ↦
      rw (large, show_loop)
        (All-is_digit-show_loop fuel (n / 10) _ (ground arith) (ground arith, v))
]

show_loop-cons :
    (fuel n : ℕ) (acc : Text) → n < fuel → (c : ℕ) × (s : Text) × (show_loop fuel n acc ≡ c ∷ s)
unfolding show_loop
show_loop-cons zero n acc h = absurd (omega arith)
show_loop-cons (suc fuel) n acc h = elim (Bool-cases (ltb n 10)) [
  | inl small ↦ (48 + n, acc, rw (small, show_loop))
  | inr large ↦ rw (large, show_loop) (show_loop-cons fuel (n / 10) _ (ground arith))
]

pub show-cons : (n : ℕ) → (c : ℕ) × (s : Text) × (show n ≡ c ∷ s)
unfolding show
show-cons n = show_loop-cons (suc n) n [] (omega arith)

pub show-digits : (n : ℕ) → All (λ c. is_digit c ≡ true) (show n)
unfolding show
show-digits n = All-is_digit-show_loop (suc n) n [] (omega arith) tt

read_loop-show : (n : ℕ) → read_loop 0 (show n) ≡ some n
unfolding show read_loop
read_loop-show n = read_loop-show_loop (suc n) n [] (omega arith)

-- A number that fits is read back from its decimal text.
pub read-show : (n : ℕ) → n ≤ max_i64 → read (show n) ≡ some n
unfolding read
read-show n h =
    let (c, s, e) = show-cons n in
    let whole : read_loop 0 (c ∷ s) ≡ some n = rw e at (read_loop-show n) in
    rw (e, read, whole) (ground arith)
