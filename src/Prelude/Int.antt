-- ===== src/Prelude/Int.antt =====
-- The `int` of C, over the native numbers: results of calls and the conversion of a `size_t`.
use Prim.Native.Nat.{ℕ, ◌-◌, ◌%◌, ◌^◌, ◌<◌, min}
use mathlib.Core.Path.{◌≡◌}
use mathlib.Core.Bool.{Bool, true, false}
use native.Mathlib.Omega.{arith}
use bare_kit.Prelude.Tests.{ltb, if◌then◌else◌}

-- `negsuc n` is -(n + 1).
pub data ℤ : Type 0 where
  pos : ℕ → ℤ
  negsuc : ℕ → ℤ

abbrev pub is_negative : ℤ → Bool
is_negative (pos n) = false
is_negative (negsuc n) = true

-- `(int) n` for a `size_t` n: the low 32 bits, read in two's complement.
unfoldable pub to_int : ℕ → ℤ
to_int n = let low = n % 2 ^ 32 in if ltb low (2 ^ 31) then pos low else negsuc (2 ^ 32 - 1 - low)

-- `INT_MAX`
abbrev pub int_max : ℕ
int_max = 2 ^ 31 - 1

-- `if (len > INT_MAX) len = INT_MAX;`
unfoldable pub cap_int : ℕ → ℕ
cap_int len = if ltb int_max len then int_max else len

pub cap_int_lem : (len : ℕ) → cap_int len ≡ min len int_max
unfolding cap_int
cap_int_lem len = ground arith

-- What fits an `int` keeps its value.
pub to_int_of_lt : (n : ℕ) → n < 2 ^ 31 → to_int n ≡ pos n
unfolding to_int
to_int_of_lt n h = ground arith
