-- ===== src/Prelude/Ints.antt =====
-- Machine integers as native numbers: the checked and saturating operations of `u64` and `U256`,
-- with the bounds written out.
use Prim.Native.Nat.{ℕ, ◌+◌, ◌-◌, ◌*◌, ◌/◌, ◌%◌, ◌^◌, ◌≤◌, ◌<◌}
use mathlib.Core.Logic.{◌↔◌}
use mathlib.Core.Option.{Option, none, some}
use native.Mathlib.Omega.{arith}
use native.Mathlib.Nat.{div-add-mod', mod-lt}
use byos_service.Prelude.Tests.{ltb, leb, ◌==◌, if◌then◌else◌}

abbrev pub u64_limit : ℕ
u64_limit = 2 ^ 64

-- `i64::MAX + 1`
abbrev pub i64_limit : ℕ
i64_limit = 2 ^ 63

abbrev pub u256_limit : ℕ
u256_limit = 2 ^ 256

abbrev pub saturate : ℕ → ℕ → ℕ
saturate limit n = if ltb n limit then n else limit - 1

abbrev pub fits : ℕ → ℕ → Option ℕ
fits limit n = if ltb n limit then some n else none

unfoldable pub u64_saturating_add : ℕ → ℕ → ℕ
u64_saturating_add a b = saturate u64_limit (a + b)

unfoldable pub saturating_add : ℕ → ℕ → ℕ
saturating_add a b = saturate u256_limit (a + b)

unfoldable pub saturating_mul : ℕ → ℕ → ℕ
saturating_mul a b = saturate u256_limit (a * b)

unfoldable pub checked_add : ℕ → ℕ → Option ℕ
checked_add a b = fits u256_limit (a + b)

unfoldable pub checked_mul : ℕ → ℕ → Option ℕ
checked_mul a b = fits u256_limit (a * b)

unfoldable pub checked_sub : ℕ → ℕ → Option ℕ
checked_sub a b = if leb b a then some (a - b) else none

unfoldable pub checked_div : ℕ → ℕ → Option ℕ
checked_div a b = if b == 0 then none else some (a / b)

-- Panics at a zero divisor in the source, which each caller excludes.
unfoldable pub div_ceil : ℕ → ℕ → ℕ
div_ceil a b = if a % b == 0 then a / b else a / b + 1

-- The ceiling is the least multiple that covers the dividend.
pub div_ceil_bounds : (a b : ℕ) → 0 < b → (a ≤ div_ceil a b * b) × (div_ceil a b * b < a + b)
unfolding div_ceil
div_ceil_bounds a b h = grind (arith, div-add-mod' a b, mod-lt a h)

-- The ceiling is below `n` exactly when `n` divisors cover the dividend.
pub div_ceil-le_iff : (a b n : ℕ) → 0 < b → (div_ceil a b ≤ n) ↔ (a ≤ n * b)
div_ceil-le_iff a b n h = (le_mul, mul_le)
  where
    le_mul : div_ceil a b ≤ n → a ≤ n * b
    le_mul p = grind (arith, div_ceil_bounds a b h)

    mul_le : a ≤ n * b → div_ceil a b ≤ n
    mul_le p = grind (arith, div_ceil_bounds a b h)
