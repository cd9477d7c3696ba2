-- ===== src/Prelude/Words.antt =====
-- Machine integers as bit patterns: a w-bit unsigned integer is a number below 2 ^ w, and an `int`
-- is the 32-bit pattern that stands for it. Signed overflow, which C++ leaves undefined, wraps.
use Prim.Native.Nat.{ℕ, ◌<◌, ◌+◌, ◌-◌, ◌/◌, ◌%◌, ◌^◌}
use mathlib.Core.Path.{◌≡◌}
use native.Mathlib.Omega.{arith}
use mathlib.Core.Bool.{Bool, true, false}
use rk_hardware_libgralloc_b.Prelude.Tests.{ltb, if◌then◌else◌}

abbrev pub u16 : ℕ → ℕ
u16 n = n % 2 ^ 16

abbrev pub u32 : ℕ → ℕ
u32 n = n % 2 ^ 32

abbrev pub u64 : ℕ → ℕ
u64 n = n % 2 ^ 64

abbrev pub is_negative : ℕ → Bool
is_negative a = if ltb a (2 ^ 31) then false else true

-- An `int` converted to 64 bits, with its sign.
unfoldable pub sign_extend : ℕ → ℕ
sign_extend a = if ltb a (2 ^ 31) then a else a + (2 ^ 64 - 2 ^ 32)

-- `a < b` on `int`.
unfoldable pub int_lt : ℕ → ℕ → Bool
int_lt a b = ltb (u32 (a + 2 ^ 31)) (u32 (b + 2 ^ 31))

-- `a / b` on `int`, for a positive `b`; the quotient is cut off towards zero.
unfoldable pub int_div : ℕ → ℕ → ℕ
int_div a b = if ltb a (2 ^ 31) then a / b else u32 (2 ^ 32 - (2 ^ 32 - a) / b)

-- Of numbers that are positive as `int`s.
pub int_lt-small : (a b : ℕ) → a < 2 ^ 31 → b < 2 ^ 31 → int_lt a b ≡ ltb a b
unfolding int_lt
int_lt-small a b p q =
    let x : u32 (a + 2 ^ 31) ≡ a + 2 ^ 31 = omega arith in
    let y : u32 (b + 2 ^ 31) ≡ b + 2 ^ 31 = omega arith in rw (x, y) (ground arith)
