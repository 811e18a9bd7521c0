-- ===== src/Prelude/Int.antt =====
-- Go's `int` and `int32` as integers over the native numbers, under the library's names.
use Prim.Native.Nat.{ℕ, ◌-◌, ◌%◌, ◌^◌, ◌<◌}
use mathlib.Core.Path.{◌≡◌}
use mathlib.Core.Logic.{◌↔◌}
use mathlib.Core.Bool.{Bool, true, false}
use native.Mathlib.Omega.{arith}
use snowcast.Prelude.Tests.{ltb, ◌==◌, if◌then◌else◌}

-- `negsuc n` is -(n + 1).
pub data ℤ : Type 0 where
  pos : ℕ → ℤ
  negsuc : ℕ → ℤ

abbrev pub int_eq : ℤ → ℤ → Bool
int_eq (pos a) (pos b) = a == b
int_eq (negsuc a) (negsuc b) = a == b
int_eq (pos a) (negsuc b) = false
int_eq (negsuc a) (pos b) = false

pub int_eq_iff : (a b : ℤ) → (int_eq a b ≡ true) ↔ (a ≡ b)
int_eq_iff a b = ground arith

abbrev pub minus_one : ℤ
minus_one = negsuc 0

-- The number of 32 bits read as two's complement.
abbrev pub of_bits32 : ℕ → ℤ
of_bits32 b = if ltb b (2 ^ 31) then pos b else negsuc (2 ^ 32 - 1 - b)

-- The conversion `int32(x)` keeps the low 32 bits.
unfoldable pub to_int32 : ℤ → ℤ
to_int32 (pos n) = of_bits32 (n % 2 ^ 32)
to_int32 (negsuc n) = of_bits32 (2 ^ 32 - 1 - n % 2 ^ 32)

pub to_int32-pos : (n : ℕ) → n < 2 ^ 31 → to_int32 (pos n) ≡ pos n
unfolding to_int32
to_int32-pos n h = ground arith
