-- ===== src/InternalFormat/Wrapper.antt =====
-- Packing a base format and modifiers into one word, and taking them out again: the wrapper of
-- src/include/gralloc/formats.h against internal_format_t::from_private.
use native.Mathlib.Decide.{dec_lt}
use rk_hardware_libgralloc_b.Format.{
  mali_gralloc_format_compress, mali_gralloc_format_get_base, mali_gralloc_format_get_modifiers,
  mali_gralloc_format_is_private, mali_gralloc_format_wrapper, mali_gralloc_intfmt_ext_mask,
  mali_gralloc_intfmt_fmt_mask, mali_gralloc_intfmt_sentinel,
}
use rk_hardware_libgralloc_b.Hal.{Hal}
use rk_hardware_libgralloc_b.InternalFormat.{from_private, internal_format}
use rk_hardware_libgralloc_b.Prelude.{
  ==_iff, arith, bit_and, bit_or, if◌then◌else◌, ltb, max, min, refl, sym, true, ℕ, ◌&&◌, ◌<◌, ◌==◌,
  ◌^◌, ◌∙◌, ◌≡◌,
}
use rk_hardware_libgralloc_b.Prelude.Bits.{
  all_below, all_below-apply, bit, bit-bit_and, bit-bit_or, bit-eq-zero, bit-le-one, bit-zero,
  bit_and-le, bit_ext, complement, has_bits-pow,
}

mask_table :
    all_below 32 (λ k.
      (bit k mali_gralloc_intfmt_fmt_mask == (if ltb k 9 then 1 else 0))
      && (bit k mali_gralloc_intfmt_ext_mask == (if ltb k 16 then 0 else 1))
      && (bit k mali_gralloc_intfmt_sentinel == (if k == 15 then 1 else 0))
      && (bit k (complement 32 mali_gralloc_intfmt_fmt_mask) == (if ltb k 9 then 0 else 1))
      && (bit k (complement 32 mali_gralloc_intfmt_ext_mask) == (if ltb k 16 then 1 else 0))
      && (bit k (complement 32 mali_gralloc_intfmt_sentinel) == (if k == 15 then 0 else 1)))
    ≡ true
unfolding all_below bit
mask_table = refl

-- The digits of the masks below 32.
mask_digits :
    (k : ℕ)
    → k < 32
    → (bit k mali_gralloc_intfmt_fmt_mask ≡ (if ltb k 9 then 1 else 0))
      × (bit k mali_gralloc_intfmt_ext_mask ≡ (if ltb k 16 then 0 else 1))
      × (bit k mali_gralloc_intfmt_sentinel ≡ (if k == 15 then 1 else 0))
      × (bit k (complement 32 mali_gralloc_intfmt_fmt_mask) ≡ (if ltb k 9 then 0 else 1))
      × (bit k (complement 32 mali_gralloc_intfmt_ext_mask) ≡ (if ltb k 16 then 1 else 0))
      × (bit k (complement 32 mali_gralloc_intfmt_sentinel) ≡ (if k == 15 then 0 else 1))
mask_digits k h =
    let entry = all_below-apply _ 32 k h mask_table in
    ground (
      arith,
      ==_iff (bit k mali_gralloc_intfmt_fmt_mask) (if ltb k 9 then 1 else 0),
      ==_iff (bit k mali_gralloc_intfmt_ext_mask) (if ltb k 16 then 0 else 1),
      entry,
    )

abbrev IsWord : ℕ → Type 0
IsWord a = a < 2 ^ 32

-- Words are equal when their 32 digits are.
word_ext : (a b : ℕ) → IsWord a → IsWord b → ((k : ℕ) → k < 32 → bit k a ≡ bit k b) → a ≡ b
word_ext a b ha hb h = bit_ext (max a b) a b (omega arith) (omega arith) digits
  where
    digits : (k : ℕ) → bit k a ≡ bit k b
    digits k = elim (dec_lt k 32) [
      | yes lt ↦ h k lt
      | no ge ↦ rw (bit-eq-zero 32 k a ha (omega arith), bit-eq-zero 32 k b hb (omega arith))
    ]

bit_or-zero : (a : ℕ) → bit_or a 0 ≡ a
bit_or-zero a = bit_ext (max (bit_or a 0) a) (bit_or a 0) a (omega arith) (omega arith) digits
  where
    digits : (k : ℕ) → bit k (bit_or a 0) ≡ bit k a
    digits k = omega (arith, bit-bit_or k a 0, bit-zero k)

without_sentinel : ℕ → ℕ
without_sentinel word = bit_and word (complement 32 mali_gralloc_intfmt_sentinel)

-- The sentinel is in neither of the two masks.
base-without_sentinel :
    (word : ℕ)
    → bit_and (without_sentinel word) mali_gralloc_intfmt_fmt_mask
      ≡ bit_and word mali_gralloc_intfmt_fmt_mask
unfolding without_sentinel
base-without_sentinel word =
    word_ext _ _ (omega (arith, bit_and-le (without_sentinel word) mali_gralloc_intfmt_fmt_mask))
      (omega (arith, bit_and-le word mali_gralloc_intfmt_fmt_mask)) digits
  where
    digits :
        (k : ℕ)
        → k < 32
        → bit k (bit_and (without_sentinel word) mali_gralloc_intfmt_fmt_mask)
          ≡ bit k (bit_and word mali_gralloc_intfmt_fmt_mask)
    digits k h =
        rw
          (
            bit-bit_and k (without_sentinel word) mali_gralloc_intfmt_fmt_mask,
            bit-bit_and k word (complement 32 mali_gralloc_intfmt_sentinel),
            bit-bit_and k word mali_gralloc_intfmt_fmt_mask,
          )
          (ground (arith, mask_digits k h, bit-le-one k word))

modifiers-without_sentinel :
    (word : ℕ)
    → bit_and (without_sentinel word) mali_gralloc_intfmt_ext_mask
      ≡ bit_and word mali_gralloc_intfmt_ext_mask
unfolding without_sentinel
modifiers-without_sentinel word =
    word_ext _ _ (omega (arith, bit_and-le (without_sentinel word) mali_gralloc_intfmt_ext_mask))
      (omega (arith, bit_and-le word mali_gralloc_intfmt_ext_mask)) digits
  where
    digits :
        (k : ℕ)
        → k < 32
        → bit k (bit_and (without_sentinel word) mali_gralloc_intfmt_ext_mask)
          ≡ bit k (bit_and word mali_gralloc_intfmt_ext_mask)
    digits k h =
        rw
          (
            bit-bit_and k (without_sentinel word) mali_gralloc_intfmt_ext_mask,
            bit-bit_and k word (complement 32 mali_gralloc_intfmt_sentinel),
            bit-bit_and k word mali_gralloc_intfmt_ext_mask,
          )
          (ground (arith, mask_digits k h, bit-le-one k word))

-- A word without a modifier added has the base format and the modifiers that it had.
pub from_private-parts :
    (word : ℕ)
    → ((from_private (bit_or word 0)).m_format ≡ mali_gralloc_format_get_base word)
      × ((from_private (bit_or word 0)).m_modifiers ≡ mali_gralloc_format_get_modifiers word)
unfolding from_private internal_format mali_gralloc_format_get_base
    mali_gralloc_format_get_modifiers without_sentinel
from_private-parts word =
    rw (bit_or-zero word) (base-without_sentinel word, modifiers-without_sentinel word)

-- What `compress` leaves fits the mask for the base format.
compress-fits :
    (hal : Hal) (hal_format : ℕ)
    → bit_and
        (mali_gralloc_format_compress hal hal_format)
        (complement 32 mali_gralloc_intfmt_fmt_mask)
      ≡ 0
unfolding mali_gralloc_format_compress
compress-fits hal hal_format = ground arith

compress-IsWord :
    (hal : Hal) (hal_format : ℕ)
    → IsWord hal_format
    → IsWord (mali_gralloc_format_compress hal hal_format)
unfolding mali_gralloc_format_compress
compress-IsWord hal hal_format h = ground arith

module _ (c m : ℕ) (c_word : IsWord c) (m_word : IsWord m)
    (c_fits : bit_and c (complement 32 mali_gralloc_intfmt_fmt_mask) ≡ 0)
    (m_fits : bit_and m (complement 32 mali_gralloc_intfmt_ext_mask) ≡ 0) where
  abbrev packed : ℕ
  packed = bit_or (bit_or m c) mali_gralloc_intfmt_sentinel

  abbrev cleared : ℕ
  cleared = bit_and packed (complement 32 mali_gralloc_intfmt_sentinel)

  bit-packed :
      (k : ℕ) → bit k packed ≡ max (max (bit k m) (bit k c)) (bit k mali_gralloc_intfmt_sentinel)
  bit-packed k = rw (bit-bit_or k (bit_or m c) mali_gralloc_intfmt_sentinel, bit-bit_or k m c)

  -- The two parts do not share a digit.
  apart :
      (k : ℕ)
      → (min (bit k c) (bit k (complement 32 mali_gralloc_intfmt_fmt_mask)) ≡ 0)
        × (min (bit k m) (bit k (complement 32 mali_gralloc_intfmt_ext_mask)) ≡ 0)
  apart k = (
    sym (bit-bit_and k c (complement 32 mali_gralloc_intfmt_fmt_mask)) ∙ rw c_fits (bit-zero k),
    sym (bit-bit_and k m (complement 32 mali_gralloc_intfmt_ext_mask)) ∙ rw m_fits (bit-zero k),
  )

  base_of_cleared : bit_and cleared mali_gralloc_intfmt_fmt_mask ≡ c
  base_of_cleared =
      word_ext _ c (omega (arith, bit_and-le cleared mali_gralloc_intfmt_fmt_mask)) c_word digits
    where
      digits : (k : ℕ) → k < 32 → bit k (bit_and cleared mali_gralloc_intfmt_fmt_mask) ≡ bit k c
      digits k h =
          rw
            (
              bit-bit_and k cleared mali_gralloc_intfmt_fmt_mask,
              bit-bit_and k packed (complement 32 mali_gralloc_intfmt_sentinel),
              bit-packed k,
            )
            (ground (arith, mask_digits k h, apart k, bit-le-one k c, bit-le-one k m))

  modifiers_of_cleared : bit_and cleared mali_gralloc_intfmt_ext_mask ≡ m
  modifiers_of_cleared =
      word_ext _ m (omega (arith, bit_and-le cleared mali_gralloc_intfmt_ext_mask)) m_word digits
    where
      digits : (k : ℕ) → k < 32 → bit k (bit_and cleared mali_gralloc_intfmt_ext_mask) ≡ bit k m
      digits k h =
          rw
            (
              bit-bit_and k cleared mali_gralloc_intfmt_ext_mask,
              bit-bit_and k packed (complement 32 mali_gralloc_intfmt_sentinel),
              bit-packed k,
            )
            (ground (arith, mask_digits k h, apart k, bit-le-one k c, bit-le-one k m))

  is_private_packed : mali_gralloc_format_is_private packed ≡ true
  unfolding mali_gralloc_format_is_private
  is_private_packed =
      rw (has_bits-pow packed 15, bit-packed 15)
        (ground (arith, mask_digits 15, bit-le-one 15 c, bit-le-one 15 m))

-- Wrapping a 32-bit base format with modifiers that keep to their upper half of the word gives a
-- private format, from which from_private recovers the compressed base format and the modifiers.
pub from_private-wrapper :
    (hal : Hal) (base_format modifiers : ℕ)
    → base_format < 2 ^ 32
    → modifiers < 2 ^ 32
    → bit_and modifiers (complement 32 mali_gralloc_intfmt_ext_mask) ≡ 0
    → (mali_gralloc_format_is_private (mali_gralloc_format_wrapper hal base_format modifiers)
        ≡ true)
      × (from_private (mali_gralloc_format_wrapper hal base_format modifiers) ≡ record {
        m_format = mali_gralloc_format_compress hal base_format;
        m_modifiers = modifiers;
      })
unfolding from_private internal_format mali_gralloc_format_get_base
    mali_gralloc_format_get_modifiers mali_gralloc_format_wrapper
from_private-wrapper hal base_format modifiers hb hm fits =
    let c = mali_gralloc_format_compress hal base_format in
    let cw = compress-IsWord hal base_format hb in
    let cf = compress-fits hal base_format in
    ground (
      arith,
      fits,
      is_private_packed c modifiers cw hm cf fits,
      base_of_cleared c modifiers cw hm cf fits,
      modifiers_of_cleared c modifiers cw hm cf fits,
    )
