-- ===== src/Prelude/Bits.antt =====
-- Masks of the form that the program uses, read as remainders, by evaluation over their range.
use Prim.Native.Nat.{ℕ, zero, suc, ◌%◌, ◌<◌, bit_and}
use mathlib.Core.Path.{◌≡◌, refl}
use mathlib.Core.Bool.{Bool, true, false}
use native.Mathlib.Omega.{arith}
use bare_kit.Prelude.Tests.{◌==◌, if◌then◌else◌}

-- Whether the mask 1023 takes the remainder of each number below `n`.
masks : ℕ → Bool
masks zero = true
masks (suc n) = if bit_and n 1023 == n % 1024 then masks n else false

masks_lem : (x n : ℕ) → x < n → masks n ≡ true → bit_and x 1023 ≡ x % 1024
unfolding masks
masks_lem x zero h m = absurd (omega arith)
masks_lem x (suc n) h m = ground (arith, masks_lem x n)

table : masks 1025 ≡ true
unfolding masks
table = refl

-- Masking by 1023 takes an index one step round a ring of 1024.
pub bit_and-1023 : (x : ℕ) → x < 1025 → bit_and x 1023 ≡ x % 1024
bit_and-1023 x h = masks_lem x 1025 h table
