-- ===== src/Prelude/Int.antt =====
-- Signed machine integers as integers over the native numbers, with Rust's `as` casts.
use Prim.Native.Nat.{ℕ, ◌<◌, ◌-◌, ◌%◌, ◌^◌, suc}
use mathlib.Core.Bool.{Bool, true, false}
use rustykvm.Prelude.Tests.{ltb, ◌==◌, if◌then◌else◌}

-- `negsuc n` is -(n + 1).
pub data ℤ : Type 0 where
  pos : ℕ → ℤ
  negsuc : ℕ → ℤ

-- a > 0
abbrev pub is_positive : ℤ → Bool
is_positive (pos n) = ltb 0 n
is_positive (negsuc n) = false

-- a == b
abbrev pub int_eq : ℤ → ℤ → Bool
int_eq (pos m) (pos n) = m == n
int_eq (negsuc m) (negsuc n) = m == n
int_eq _ _ = false

-- a < b
abbrev pub int_lt : ℤ → ℤ → Bool
int_lt (pos m) (pos n) = ltb m n
int_lt (pos m) (negsuc n) = false
int_lt (negsuc m) (pos n) = true
int_lt (negsuc m) (negsuc n) = ltb n m

-- `a as uN`: the value modulo 2 ^ N, in two's complement.
abbrev pub as_unsigned : ℕ → ℤ → ℕ
as_unsigned bits (pos n) = n % 2 ^ bits
as_unsigned bits (negsuc n) = 2 ^ bits - 1 - (n % 2 ^ bits)

-- The bit pattern `w` of `suc bits` bits read as a signed number.
abbrev pub as_signed : ℕ → ℕ → ℤ
as_signed bits w = if ltb w (2 ^ bits) then pos w else negsuc (2 ^ suc bits - 1 - w)

-- The values of an i32.
abbrev pub IsI32 : ℤ → Type 0
IsI32 (pos n) = n < 2 ^ 31
IsI32 (negsuc n) = n < 2 ^ 31
