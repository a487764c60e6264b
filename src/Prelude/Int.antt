-- ===== src/Prelude/Int.antt =====
-- Go's signed `int`, where an argument may be negative: a value is a number or the negative of a
-- positive one.
use Prim.Native.Nat.{ℕ}
use mathlib.Core.Bool.{Bool, true, false}
use go_kd.Prelude.Tests.{ltb, leb}

-- `negsuc n` is -(n + 1).
pub data ℤ : Type 0 where
  pos : ℕ → ℤ
  negsuc : ℕ → ℤ

-- the tests `v <= 0` and `v < n`, `n < v` for a number `n`
abbrev pub nonpositive : ℤ → Bool
nonpositive (pos n) = leb n 0
nonpositive (negsuc n) = true

abbrev pub negative : ℤ → Bool
negative (pos n) = false
negative (negsuc n) = true

abbrev pub below : ℤ → ℕ → Bool
below (pos m) n = ltb m n
below (negsuc m) n = true

abbrev pub above : ℤ → ℕ → Bool
above (pos m) n = ltb n m
above (negsuc m) n = false

-- the value of an integer that is not negative
abbrev pub to_ℕ : ℤ → ℕ
to_ℕ (pos n) = n
to_ℕ (negsuc n) = 0
