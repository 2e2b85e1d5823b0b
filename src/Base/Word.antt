-- ===== src/Base/Word.antt =====
-- 32-bit words: `int` and `unsigned int` as the bit pattern, a number below 2 ^ 32.
use Prim.Native.Nat.{ℕ, ◌+◌, ◌-◌, ◌%◌, ◌^◌}
use mathlib.Core.Bool.{Bool}
use dkms_rpi_codec.Base.Tests.{ltb}

abbrev pub word : ℕ
word = 2 ^ 32

abbrev pub add32 : ℕ → ℕ → ℕ
add32 a b = (a + b) % 2 ^ 32

abbrev pub sub32 : ℕ → ℕ → ℕ
sub32 a b = (a + 2 ^ 32 - b) % 2 ^ 32

abbrev pub u16 : ℕ → ℕ
u16 n = n % 2 ^ 16

-- `(int)x >= 0`.
abbrev pub nonneg32 : ℕ → Bool
nonneg32 x = ltb x (2 ^ 31)
