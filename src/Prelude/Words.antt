-- ===== src/Prelude/Words.antt =====
-- Go's fixed-width integers. An `int32` and an `int64` are their bit patterns, numbers below 2 ^ 32
-- and 2 ^ 64; a pattern from the half on stands for a negative value. Arithmetic wraps around.
use Prim.Native.Nat.{ℕ, ◌+◌, ◌-◌, ◌%◌}
use mathlib.Core.Bool.{Bool}
use flintlock_runner.Prelude.Tests.{ltb, leb}

abbrev pub half32 : ℕ
half32 = 2147483648

abbrev pub mod32 : ℕ
mod32 = 4294967296

-- `int32(n)` of a length
abbrev pub int32 : ℕ → ℕ
int32 n = n % mod32

abbrev pub add32 : ℕ → ℕ → ℕ
add32 a b = (a + b) % mod32

abbrev pub sub32 : ℕ → ℕ → ℕ
sub32 a b = (a + mod32 - b) % mod32

-- `a < b` of two `int32`
abbrev pub lt32 : ℕ → ℕ → Bool
lt32 a b = ltb ((a + half32) % mod32) ((b + half32) % mod32)

abbrev pub le32 : ℕ → ℕ → Bool
le32 a b = leb ((a + half32) % mod32) ((b + half32) % mod32)

abbrev pub half64 : ℕ
half64 = 9223372036854775808

abbrev pub mod64 : ℕ
mod64 = 18446744073709551616

abbrev pub lt64 : ℕ → ℕ → Bool
lt64 a b = ltb ((a + half64) % mod64) ((b + half64) % mod64)

abbrev pub le64 : ℕ → ℕ → Bool
le64 a b = leb ((a + half64) % mod64) ((b + half64) % mod64)
