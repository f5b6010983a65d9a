-- ===== src/Base/Ints.antt =====
-- Integers over the native numbers, under the library's names.
use Prim.Native.Nat.{ℕ, ◌+◌, ◌-◌, ◌≤◌}
use mathlib.Core.Path.{◌≡◌, ap}
use native.Mathlib.Omega.{arith}
use blue_star_os.Base.Tests.{leb, if◌then◌else◌}

pub data ℤ : Type 0 where
  pos : ℕ → ℤ
  negsuc : ℕ → ℤ

-- `a - b`.
abbrev pub difference : ℕ → ℕ → ℤ
difference a b = if leb b a then pos (a - b) else negsuc (b - a - 1)

magnitude : ℤ → ℕ
magnitude (pos n) = n
magnitude (negsuc n) = n + 1

magnitude_le : (a b : ℕ) → a ≤ magnitude (difference a b) + b
unfolding magnitude
magnitude_le a b = ground arith

magnitude_ge : (a b : ℕ) → b ≤ magnitude (difference a b) + a
unfolding magnitude
magnitude_ge a b = ground arith

pub difference_zero : (a b : ℕ) → difference a b ≡ pos 0 → a ≡ b
unfolding magnitude
difference_zero a b e =
    let none_left : magnitude (difference a b) ≡ 0 = ap magnitude e in
    omega (arith, none_left, magnitude_le a b, magnitude_ge a b)
