-- ===== src/Prelude/Int.antt =====
-- Signed integers over the native numbers, under the library's names (its ℤ stands on the unary ℕ).
use Prim.Native.Nat.{ℕ, suc, ◌+◌, ◌-◌, ◌<◌, zero}
use mathlib.Core.Path.{◌≡◌}
use mathlib.Core.Bool.{Bool, true, false}
use mathlib.Core.Option.{Option, none, some}
use native.Mathlib.Omega.{arith}
use typescript2cxx.Prelude.Tests.{leb, ltb, if◌then◌else◌}

-- `negsuc n` is -(n + 1).
pub data ℤ : Type 0 where
  pos : ℕ → ℤ
  negsuc : ℕ → ℤ

-- a - b of two numbers that are not negative.
abbrev pub sub_ℕ : ℕ → ℕ → ℤ
sub_ℕ a b = if leb b a then pos (a - b) else negsuc (b - a - 1)

-- `a <= 0`
abbrev pub is_nonpos : ℤ → Bool
is_nonpos (pos zero) = true
is_nonpos (pos (suc n)) = false
is_nonpos (negsuc n) = true

-- The absolute value.
abbrev pub abs : ℤ → ℕ
abs (pos n) = n
abs (negsuc n) = suc n

-- a + d, where the sum is not negative.
abbrev pub add_ℤ? : ℕ → ℤ → Option ℕ
add_ℤ? a (pos n) = some (a + n)
add_ℤ? a (negsuc n) = if ltb n a then some (a - suc n) else none

pub add_ℤ?-sub_ℕ : (a b : ℕ) → add_ℤ? b (sub_ℕ a b) ≡ some a
add_ℤ?-sub_ℕ a b = ground arith

pub abs-sub_ℕ : (a b k : ℕ) → a < k → b < k → abs (sub_ℕ a b) < k
abs-sub_ℕ a b k h h' = ground arith
