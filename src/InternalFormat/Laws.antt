-- ===== src/InternalFormat/Laws.antt =====
-- Reading a modifier or a coding size of an internal format after writing one.
use rk_hardware_libgralloc_b.Format.{extension_bit}
use rk_hardware_libgralloc_b.InternalFormat.{
  InternalFormat, get_afrc_chroma_coding_size, get_afrc_rgba_coding_size, get_coding_size,
  get_modifier, set_afrc_chroma_coding_size, set_afrc_luma_coding_size, set_coding_size,
  set_modifier,
}
use rk_hardware_libgralloc_b.Prelude.{
  ==_iff, Bool, ap, arith, false, if◌then◌else◌, ltb, max, min, refl, sym, true, ℕ, ◌*◌, ◌+◌, ◌/◌,
  ◌<◌, ◌==◌, ◌^◌, ◌∙◌, ◌≡◌,
}
use rk_hardware_libgralloc_b.Prelude.Bits.{
  all_below, all_below-apply_pair, bit, bit-bit_and, bit-bit_or, bit-div, bit-eq-zero, bit-le-one,
  bit_and_three, complement, has_bits-pow,
}

-- Extension bits are digits of the word, each apart from the others.
bit-extension_bit_table :
    all_below 16
      (λ j. all_below 16 (λ k. bit (16 + k) (extension_bit j) == (if j == k then 1 else 0)))
    ≡ true
unfolding all_below bit extension_bit
bit-extension_bit_table = refl

bit-complement_table :
    all_below 16 (λ j.
      all_below 16
        (λ k. bit (16 + k) (complement 32 (extension_bit j)) == (if j == k then 0 else 1)))
    ≡ true
unfolding all_below bit extension_bit
bit-complement_table = refl

bit-extension_bit :
    (j k : ℕ) → j < 16 → k < 16 → bit (16 + k) (extension_bit j) ≡ (if j == k then 1 else 0)
bit-extension_bit j k hj hk =
    (==_iff _ _).0 (all_below-apply_pair _ 16 16 j k hj hk bit-extension_bit_table)

bit-complement :
    (j k : ℕ)
    → j < 16
    → k < 16
    → bit (16 + k) (complement 32 (extension_bit j)) ≡ (if j == k then 0 else 1)
bit-complement j k hj hk =
    (==_iff _ _).0 (all_below-apply_pair _ 16 16 j k hj hk bit-complement_table)

get_modifier-bit :
    (f : InternalFormat) (k : ℕ)
    → get_modifier f (extension_bit k) ≡ (bit (16 + k) f.m_modifiers == 1)
unfolding get_modifier extension_bit
get_modifier-bit f k = has_bits-pow f.m_modifiers (16 + k)

-- Writing modifier bit `j` sets the value that reading bit `j` gives, and leaves what reading any
-- other bit gives.
pub get_modifier-set_modifier :
    (f : InternalFormat) (j k : ℕ) (value : Bool)
    → j < 16
    → k < 16
    → get_modifier (set_modifier f (extension_bit j) value) (extension_bit k)
      ≡ (if j == k then value else get_modifier f (extension_bit k))
get_modifier-set_modifier f j k true hj hk =
    let written : bit (16 + k) (set_modifier f (extension_bit j) true).m_modifiers
        ≡ max (bit (16 + k) f.m_modifiers) (if j == k then 1 else 0) =
      unfold set_modifier in
      rw (bit-bit_or (16 + k) f.m_modifiers (extension_bit j), bit-extension_bit j k hj hk) in
    rw (get_modifier-bit _ k, get_modifier-bit f k, written)
      (ground (arith, bit-le-one (16 + k) f.m_modifiers))
get_modifier-set_modifier f j k false hj hk =
    let written : bit (16 + k) (set_modifier f (extension_bit j) false).m_modifiers
        ≡ min (bit (16 + k) f.m_modifiers) (if j == k then 0 else 1) =
      unfold set_modifier in
      rw (
        bit-bit_and (16 + k) f.m_modifiers (complement 32 (extension_bit j)),
        bit-complement j k hj hk,
      ) in
    rw (get_modifier-bit _ k, get_modifier-bit f k, written)
      (ground (arith, bit-le-one (16 + k) f.m_modifiers))

-- The index of an extension bit, in a form that computes at a numeral.
abbrev pub IsExtension : ℕ → Type 0
IsExtension j = elim (ltb j 16) [ true ↦ Unit {0} | false ↦ ⊥ ]

IsExtension-lt : (j : ℕ) → IsExtension j → j < 16
IsExtension-lt j h = ground arith

pub get_after_set :
    (f : InternalFormat) (j k : ℕ) (value : Bool)
    → IsExtension j
    → IsExtension k
    → get_modifier (set_modifier f (extension_bit j) value) (extension_bit k)
      ≡ (if j == k then value else get_modifier f (extension_bit k))
get_after_set f j k value hj hk =
    get_modifier-set_modifier f j k value (IsExtension-lt j hj) (IsExtension-lt k hk)

pub m_format-set_modifier :
    (f : InternalFormat) (flag : ℕ) (value : Bool)
    → (set_modifier f flag value).m_format ≡ f.m_format
unfolding set_modifier
m_format-set_modifier f flag value = refl

-- For `simp`, with the entry `tt {0}` for the side conditions.
pub ruleset modifier_laws = (get_after_set, m_format-set_modifier)

-- The digits of the word after a coding size is written into the two bits at `shift`.
bit-set_coding_size :
    (shift k size : ℕ) (f : InternalFormat)
    → bit k (set_coding_size shift f size).m_modifiers
      ≡ max
          (min (bit k f.m_modifiers) (bit k (complement 32 (3 * 2 ^ shift))))
          (bit k (size * 2 ^ shift))
unfolding set_coding_size
bit-set_coding_size shift k size f =
    rw (
      bit-bit_or k _ (size * 2 ^ shift),
      bit-bit_and k f.m_modifiers (complement 32 (3 * 2 ^ shift)),
    )

-- A coding size reads the two digits at its shift.
get_coding_size-digits :
    (shift : ℕ) (f : InternalFormat)
    → get_coding_size shift f ≡ bit (shift + 1) f.m_modifiers * 2 + bit (shift + 0) f.m_modifiers
unfolding get_coding_size
get_coding_size-digits shift f = rw (
  bit_and_three (f.m_modifiers / 2 ^ shift),
  bit-div shift 1 f.m_modifiers,
  bit-div shift 0 f.m_modifiers,
)

size_digits : (size : ℕ) → size < 4 → size ≡ bit 1 size * 2 + bit 0 size
unfolding bit
size_digits size h = omega arith

-- The masks of the two fields, digit by digit.
field_masks :
    (bit 20 (complement 32 (3 * 2 ^ 20)) ≡ 0)
    × (bit 21 (complement 32 (3 * 2 ^ 20)) ≡ 0)
    × (bit 22 (complement 32 (3 * 2 ^ 20)) ≡ 1)
    × (bit 23 (complement 32 (3 * 2 ^ 20)) ≡ 1)
    × (bit 20 (complement 32 (3 * 2 ^ 22)) ≡ 1)
    × (bit 21 (complement 32 (3 * 2 ^ 22)) ≡ 1)
    × (bit 22 (complement 32 (3 * 2 ^ 22)) ≡ 0)
    × (bit 23 (complement 32 (3 * 2 ^ 22)) ≡ 0)
unfolding bit
field_masks = (refl, refl, refl, refl, refl, refl, refl, refl)

-- A size moved to the luma field is read there, and does not reach the chroma field.
luma_digits :
    (size : ℕ)
    → size < 4
    → (bit 20 (size * 2 ^ 20) ≡ bit 0 size)
      × (bit 21 (size * 2 ^ 20) ≡ bit 1 size)
      × (bit 22 (size * 2 ^ 20) ≡ 0)
      × (bit 23 (size * 2 ^ 20) ≡ 0)
luma_digits size h = (
  sym (bit-div 20 0 (size * 2 ^ 20)) ∙ ap (bit 0) (omega arith),
  sym (bit-div 20 1 (size * 2 ^ 20)) ∙ ap (bit 1) (omega arith),
  sym (bit-div 20 2 (size * 2 ^ 20)) ∙ bit-eq-zero 2 2 _ (omega arith) (omega arith),
  sym (bit-div 20 3 (size * 2 ^ 20)) ∙ bit-eq-zero 2 3 _ (omega arith) (omega arith),
)

chroma_digits :
    (size : ℕ)
    → (bit 22 (size * 2 ^ 22) ≡ bit 0 size)
      × (bit 23 (size * 2 ^ 22) ≡ bit 1 size)
      × (bit 20 (size * 2 ^ 22) ≡ 0)
      × (bit 21 (size * 2 ^ 22) ≡ 0)
unfolding bit
chroma_digits size = (
  sym (bit-div 22 0 (size * 2 ^ 22)) ∙ ap (bit 0) (omega arith),
  sym (bit-div 22 1 (size * 2 ^ 22)) ∙ ap (bit 1) (omega arith),
  sym (bit-div 20 0 (size * 2 ^ 22)) ∙ omega arith,
  sym (bit-div 20 1 (size * 2 ^ 22)) ∙ omega arith,
)

-- Each coding size is what was last written to it: writing the luma size of a format leaves the
-- chroma size, and the other way round.
pub coding_sizes :
    (f : InternalFormat) (size : ℕ)
    → size < 4
    → (get_afrc_rgba_coding_size (set_afrc_luma_coding_size f size) ≡ size)
      × (get_afrc_chroma_coding_size (set_afrc_luma_coding_size f size)
          ≡ get_afrc_chroma_coding_size f)
      × (get_afrc_chroma_coding_size (set_afrc_chroma_coding_size f size) ≡ size)
      × (get_afrc_rgba_coding_size (set_afrc_chroma_coding_size f size)
          ≡ get_afrc_rgba_coding_size f)
      × ((set_afrc_luma_coding_size f size).m_format ≡ f.m_format)
      × ((set_afrc_chroma_coding_size f size).m_format ≡ f.m_format)
unfolding get_afrc_rgba_coding_size get_afrc_chroma_coding_size set_afrc_luma_coding_size
    set_afrc_chroma_coding_size
coding_sizes f size small = (
  rw (get_coding_size-digits 20 (set_coding_size 20 f size))
      (omega (arith, luma 0, luma 1, luma_digits size small, field_masks, size_digits size small)),
  rw (get_coding_size-digits 22 (set_coding_size 20 f size), get_coding_size-digits 22 f)
      (omega (
        arith,
        luma 2,
        luma 3,
        luma_digits size small,
        field_masks,
        bit-le-one 22 f.m_modifiers,
        bit-le-one 23 f.m_modifiers,
      )),
  rw (get_coding_size-digits 22 (set_coding_size 22 f size))
      (omega (arith, chroma 2, chroma 3, chroma_digits size, field_masks, size_digits size small)),
  rw (get_coding_size-digits 20 (set_coding_size 22 f size), get_coding_size-digits 20 f)
      (omega (
        arith,
        chroma 0,
        chroma 1,
        chroma_digits size,
        field_masks,
        bit-le-one 20 f.m_modifiers,
        bit-le-one 21 f.m_modifiers,
      )),
  unfold set_coding_size in refl,
  unfold set_coding_size in refl,
)
  where
    luma :
        (k : ℕ)
        → bit (20 + k) (set_coding_size 20 f size).m_modifiers
          ≡ max
              (min (bit (20 + k) f.m_modifiers) (bit (20 + k) (complement 32 (3 * 2 ^ 20))))
              (bit (20 + k) (size * 2 ^ 20))
    luma k = bit-set_coding_size 20 (20 + k) size f

    chroma :
        (k : ℕ)
        → bit (20 + k) (set_coding_size 22 f size).m_modifiers
          ≡ max
              (min (bit (20 + k) f.m_modifiers) (bit (20 + k) (complement 32 (3 * 2 ^ 22))))
              (bit (20 + k) (size * 2 ^ 22))
    chroma k = bit-set_coding_size 22 (20 + k) size f
