-- ===== src/Base/Numbers.antt =====
-- The numbers that JavaScript code is handed: integers, and the values that are no number. What
-- is kept of a number is `Math.trunc` of it, which is all that the code reads.
use Prim.Native.Nat.{ℕ, max}

-- `negsuc n` is -(n + 1).
pub data ℤ : Type 0 where
  pos : ℕ → ℤ
  negsuc : ℕ → ℤ

-- `not_finite` stands for NaN and the two infinities.
pub data Number : Type 0 where
  finite : ℤ → Number
  not_finite : Number

-- `Math.max(0, Math.trunc(n))`
abbrev pub pos_part : ℤ → ℕ
pos_part (pos n) = n
pos_part (negsuc n) = 0

-- `Math.max(1, Math.trunc(n))`
abbrev pub at_least_one : ℤ → ℕ
at_least_one z = max 1 (pos_part z)
