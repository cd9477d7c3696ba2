-- ===== src/Align.antt =====
-- The macro GRALLOC_ALIGN of src/helper_functions.h, at the types of its uses, and what it gives
-- where the sum inside does not wrap.
use native.Mathlib.Nat.{div-add-mod', div-mul-le_self, mod-eq_of_lt, mod-lt}
use rk_hardware_libgralloc_b.Prelude.{
  arith, ltb, lt→ltb, refl, true, ℕ, ◌*◌, ◌+◌, ◌-◌, ◌/◌, ◌<◌, ◌^◌, ◌≡◌, ◌≤◌,
}
use rk_hardware_libgralloc_b.Prelude.Words.{int_div, u32, u64}

-- `((value + base - 1) / base) * base` on uint32_t.
unfoldable pub gralloc_align : ℕ → ℕ → ℕ
gralloc_align value base = u32 (value + base + (2 ^ 32 - 1)) / base * base

-- The same on `int`, for a positive base.
unfoldable pub gralloc_align_int : ℕ → ℕ → ℕ
gralloc_align_int value base = u32 (int_div (u32 (value + (base - 1))) base * base)

-- The same on size_t of 64 bits.
unfoldable pub gralloc_align_size : ℕ → ℕ → ℕ
gralloc_align_size value base = u64 (value + base + (2 ^ 64 - 1)) / base * base

-- `aligned` is the least multiple of `base` from `value` on.
pub record IsAlignment (value base aligned : ℕ) : Type 0 where
  pub covers : value ≤ aligned
  pub tight : aligned < value + base
  pub blocks : ℕ
  pub multiple : aligned ≡ blocks * base

round_up : (value base : ℕ) → 0 < base → IsAlignment value base ((value + base - 1) / base * base)
round_up value base h = record {
  covers = omega (arith, div-add-mod' (value + base - 1) base, mod-lt (value + base - 1) h);
  tight = omega (arith, div-mul-le_self (value + base - 1) base);
  blocks = (value + base - 1) / base;
  multiple = refl;
}

-- The three versions of the macro round up where the sum fits the type.
pub gralloc_align-IsAlignment :
    (value base : ℕ)
    → 0 < base
    → value + base ≤ 2 ^ 32
    → IsAlignment value base (gralloc_align value base)
unfolding gralloc_align
gralloc_align-IsAlignment value base h fits =
    let sum : u32 (value + base + (2 ^ 32 - 1)) ≡ value + base - 1 = omega arith in
    rw sum (round_up value base h)

pub gralloc_align_size-IsAlignment :
    (value base : ℕ)
    → 0 < base
    → value + base ≤ 2 ^ 64
    → IsAlignment value base (gralloc_align_size value base)
unfolding gralloc_align_size
gralloc_align_size-IsAlignment value base h fits =
    let sum : u64 (value + base + (2 ^ 64 - 1)) ≡ value + base - 1 = omega arith in
    rw sum (round_up value base h)

pub gralloc_align_int-IsAlignment :
    (value base : ℕ)
    → 0 < base
    → value + base ≤ 2 ^ 31
    → IsAlignment value base (gralloc_align_int value base)
unfolding gralloc_align_int int_div
gralloc_align_int-IsAlignment value base h fits =
    let sum : u32 (value + (base - 1)) ≡ value + base - 1 = omega arith in
    let small : ltb (value + base - 1) (2 ^ 31) ≡ true = lt→ltb _ _ (omega arith) in
    let rounded = round_up value base h in
    let whole : u32 ((value + base - 1) / base * base) ≡ (value + base - 1) / base * base =
      mod-eq_of_lt (omega (arith, rounded.tight)) in
    rw (sum, small, whole) rounded
