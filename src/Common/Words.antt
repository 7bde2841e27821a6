-- ===== src/Common/Words.antt =====
-- Machine integers. A uint32, uint64 or int64 is its bit pattern, a number below 2 ^ 32 or 2 ^ 64.
use Prim.Native.Nat.{ℕ, ◌+◌, ◌%◌, ◌^◌, ◌≤◌, ◌<◌}
use mathlib.Core.Path.{◌≡◌}
use mathlib.Core.Bool.{Bool, true}
use native.Mathlib.Omega.{arith}
use ssmlib.Common.Tests.{leb, leb→le, le→leb}

abbrev pub u32 : ℕ → ℕ
u32 n = n % 2 ^ 32

abbrev pub u64 : ℕ → ℕ
u64 n = n % 2 ^ 64

-- `a >= b` on int64: the order of the patterns with the sign bit flipped.
abbrev pub int64_ge : ℕ → ℕ → Bool
int64_ge a b = leb ((b + 2 ^ 63) % 2 ^ 64) ((a + 2 ^ 63) % 2 ^ 64)

-- An int64 below 0.
abbrev pub IsNegative : ℕ → Type 0
IsNegative a = 2 ^ 63 ≤ a

-- An int64 at or above one that is not negative.
pub int64_ge→le : (a b : ℕ) → a < 2 ^ 64 → b < 2 ^ 63 → int64_ge a b ≡ true → b ≤ a
int64_ge→le a b ha hb h = omega (arith, leb→le ((b + 2 ^ 63) % 2 ^ 64) ((a + 2 ^ 63) % 2 ^ 64) h)

pub int64_ge_refl : (a : ℕ) → int64_ge a a ≡ true
int64_ge_refl a = le→leb ((a + 2 ^ 63) % 2 ^ 64) ((a + 2 ^ 63) % 2 ^ 64) (omega arith)
