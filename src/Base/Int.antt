-- ===== src/Base/Int.antt =====
-- `i32` values as signed integers over the native numbers. A value of the program lies between
-- -2 ^ 31 and 2 ^ 31 - 1; the operations that can leave that range wrap, as a release build does.
use Prim.Native.Nat.{ℕ, zero, suc, ◌+◌, ◌-◌, ◌%◌, ◌^◌, ◌<◌}
use mathlib.Core.Bool.{Bool, true, false}
use liburing_rs.Base.Tests.{ltb, ◌==◌, if◌then◌else◌}

-- `negsuc n` is -(n + 1).
pub data ℤ : Type 0 where
  pos : ℕ → ℤ
  negsuc : ℕ → ℤ

abbrev pub IsI32 : ℤ → Type 0
IsI32 (pos n) = n < 2 ^ 31
IsI32 (negsuc n) = n < 2 ^ 31

-- The test `x < 0`.
abbrev pub is_neg : ℤ → Bool
is_neg (pos n) = false
is_neg (negsuc n) = true

-- The test `x > 0`.
abbrev pub is_pos : ℤ → Bool
is_pos (pos n) = ltb 0 n
is_pos (negsuc n) = false

abbrev pub int_eq : ℤ → ℤ → Bool
int_eq (pos m) (pos n) = m == n
int_eq (pos m) (negsuc n) = false
int_eq (negsuc m) (pos n) = false
int_eq (negsuc m) (negsuc n) = m == n

-- `-x` on `i32`: the least value is its own negation.
abbrev pub neg_i32 : ℤ → ℤ
neg_i32 (pos zero) = pos 0
neg_i32 (pos (suc n)) = negsuc n
neg_i32 (negsuc n) = if n == 2 ^ 31 - 1 then negsuc n else pos (n + 1)

-- `x as usize` sign-extends to 64 bits.
abbrev pub as_usize : ℤ → ℕ
as_usize (pos n) = n
as_usize (negsuc n) = 2 ^ 64 - (n + 1)

-- `x as u32` keeps the low 32 bits.
abbrev pub as_u32 : ℕ → ℕ
as_u32 n = n % 2 ^ 32
