-- ===== src/InternalFormat.antt =====
-- src/core/internal_format.h and internal_format.cpp: the class internal_format_t, a base format
-- and a word of modifiers. The DCHECKs of make_afbc, make_afrc and make_block_linear belong to
-- debug builds only.
pub mod Laws
pub mod Wrapper
use rk_hardware_libgralloc_b.Format.{
  mali_gralloc_format_get_base, mali_gralloc_format_get_modifiers,
  mali_gralloc_format_internal_undefined, mali_gralloc_intfmt_afbc_basic,
  mali_gralloc_intfmt_afbc_bch, mali_gralloc_intfmt_afbc_double_body,
  mali_gralloc_intfmt_afbc_extrawideblk, mali_gralloc_intfmt_afbc_sparse,
  mali_gralloc_intfmt_afbc_splitblk, mali_gralloc_intfmt_afbc_tiled_headers,
  mali_gralloc_intfmt_afbc_usm, mali_gralloc_intfmt_afbc_wideblk,
  mali_gralloc_intfmt_afbc_yuv_transform, mali_gralloc_intfmt_afrc_basic,
  mali_gralloc_intfmt_afrc_chroma_coding_unit_bytes_shift,
  mali_gralloc_intfmt_afrc_coding_unit_bytes_mask,
  mali_gralloc_intfmt_afrc_coding_unit_bytes_unwrap,
  mali_gralloc_intfmt_afrc_rgba_coding_unit_bytes_shift, mali_gralloc_intfmt_afrc_rot_layout,
  mali_gralloc_intfmt_block_linear_basic, mali_gralloc_intfmt_sentinel,
}
use rk_hardware_libgralloc_b.Prelude.{
  Bool, bit_and, bit_or, if◌then◌else◌, not, true, ℕ, ◌*◌, ◌/◌, ◌==◌, ◌^◌,
}
use rk_hardware_libgralloc_b.Prelude.Bits.{complement, has_bits}

pub record InternalFormat : Type 0 where
  pub m_format : ℕ
  pub m_modifiers : ℕ

-- A CHECK that fails ends the process.
pub data Checked {ℓ} (A : Type ℓ) : Type ℓ where
  ok : A → Checked A
  abort : Checked A

infixl 5 ◌>>=◌
abbrev pub ◌>>=◌ {ℓ κ} : {A : Type ℓ} {B : Type κ} → Checked A → (A → Checked B) → Checked B
ok a >>= f = f a
abort >>= f = abort

abbrev pub invalid : InternalFormat
invalid = record { m_format = mali_gralloc_format_internal_undefined; m_modifiers = 0 }

-- The private constructor.
unfoldable pub internal_format : ℕ → InternalFormat
internal_format value = record {
  m_format = mali_gralloc_format_get_base value;
  m_modifiers = mali_gralloc_format_get_modifiers value;
}

abbrev pub has_modifiers : InternalFormat → Bool
has_modifiers f = not (f.m_modifiers == 0)

unfoldable pub from_android : ℕ → Checked InternalFormat
from_android android_format =
    let ret = internal_format android_format in if has_modifiers ret then abort else ok ret

-- The sentinel bit has no purpose after this point.
unfoldable pub from_private : ℕ → InternalFormat
from_private private_format =
    internal_format (bit_and private_format (complement 32 mali_gralloc_intfmt_sentinel))

abbrev pub get_base : InternalFormat → ℕ
get_base f = mali_gralloc_format_get_base f.m_format

unfoldable pub clear_modifiers : InternalFormat → InternalFormat
clear_modifiers f = record f { m_modifiers = 0 }

abbrev pub is_undefined : InternalFormat → Bool
is_undefined f = f.m_format == mali_gralloc_format_internal_undefined

unfoldable pub set_modifier : InternalFormat → ℕ → Bool → InternalFormat
set_modifier f flag value = record f {
  m_modifiers =
      if value then bit_or f.m_modifiers flag else bit_and f.m_modifiers (complement 32 flag);
}

unfoldable pub get_modifier : InternalFormat → ℕ → Bool
get_modifier f flag = has_bits f.m_modifiers flag

abbrev pub make_afbc : InternalFormat → InternalFormat
make_afbc f = set_modifier f mali_gralloc_intfmt_afbc_basic true

abbrev pub is_afbc : InternalFormat → Bool
is_afbc f = get_modifier f mali_gralloc_intfmt_afbc_basic

abbrev pub make_afrc : InternalFormat → InternalFormat
make_afrc f = set_modifier f mali_gralloc_intfmt_afrc_basic true

abbrev pub is_afrc : InternalFormat → Bool
is_afrc f = get_modifier f mali_gralloc_intfmt_afrc_basic

abbrev pub make_block_linear : InternalFormat → InternalFormat
make_block_linear f = set_modifier f mali_gralloc_intfmt_block_linear_basic true

abbrev pub is_block_linear : InternalFormat → Bool
is_block_linear f = get_modifier f mali_gralloc_intfmt_block_linear_basic

abbrev pub set_afbc_32x8 : InternalFormat → Bool → InternalFormat
set_afbc_32x8 f value = set_modifier f mali_gralloc_intfmt_afbc_wideblk value

abbrev pub get_afbc_32x8 : InternalFormat → Bool
get_afbc_32x8 f = get_modifier f mali_gralloc_intfmt_afbc_wideblk

abbrev pub set_afbc_64x4 : InternalFormat → Bool → InternalFormat
set_afbc_64x4 f value = set_modifier f mali_gralloc_intfmt_afbc_extrawideblk value

abbrev pub get_afbc_64x4 : InternalFormat → Bool
get_afbc_64x4 f = get_modifier f mali_gralloc_intfmt_afbc_extrawideblk

abbrev pub set_afbc_yuv_transform : InternalFormat → Bool → InternalFormat
set_afbc_yuv_transform f value = set_modifier f mali_gralloc_intfmt_afbc_yuv_transform value

abbrev pub get_afbc_yuv_transform : InternalFormat → Bool
get_afbc_yuv_transform f = get_modifier f mali_gralloc_intfmt_afbc_yuv_transform

abbrev pub set_afbc_sparse : InternalFormat → Bool → InternalFormat
set_afbc_sparse f value = set_modifier f mali_gralloc_intfmt_afbc_sparse value

abbrev pub get_afbc_sparse : InternalFormat → Bool
get_afbc_sparse f = get_modifier f mali_gralloc_intfmt_afbc_sparse

abbrev pub set_afbc_tiled_headers : InternalFormat → Bool → InternalFormat
set_afbc_tiled_headers f value = set_modifier f mali_gralloc_intfmt_afbc_tiled_headers value

abbrev pub get_afbc_tiled_headers : InternalFormat → Bool
get_afbc_tiled_headers f = get_modifier f mali_gralloc_intfmt_afbc_tiled_headers

abbrev pub set_afbc_double_body : InternalFormat → Bool → InternalFormat
set_afbc_double_body f value = set_modifier f mali_gralloc_intfmt_afbc_double_body value

abbrev pub get_afbc_double_body : InternalFormat → Bool
get_afbc_double_body f = get_modifier f mali_gralloc_intfmt_afbc_double_body

abbrev pub set_afbc_block_split : InternalFormat → Bool → InternalFormat
set_afbc_block_split f value = set_modifier f mali_gralloc_intfmt_afbc_splitblk value

abbrev pub get_afbc_block_split : InternalFormat → Bool
get_afbc_block_split f = get_modifier f mali_gralloc_intfmt_afbc_splitblk

abbrev pub set_afbc_bch : InternalFormat → Bool → InternalFormat
set_afbc_bch f value = set_modifier f mali_gralloc_intfmt_afbc_bch value

abbrev pub get_afbc_bch : InternalFormat → Bool
get_afbc_bch f = get_modifier f mali_gralloc_intfmt_afbc_bch

abbrev pub set_afbc_usm : InternalFormat → Bool → InternalFormat
set_afbc_usm f value = set_modifier f mali_gralloc_intfmt_afbc_usm value

abbrev pub get_afbc_usm : InternalFormat → Bool
get_afbc_usm f = get_modifier f mali_gralloc_intfmt_afbc_usm

abbrev pub set_afrc_rot_layout : InternalFormat → Bool → InternalFormat
set_afrc_rot_layout f value = set_modifier f mali_gralloc_intfmt_afrc_rot_layout value

abbrev pub get_afrc_rot_layout : InternalFormat → Bool
get_afrc_rot_layout f = get_modifier f mali_gralloc_intfmt_afrc_rot_layout

-- enum class afrc_coding_unit_size_t.
abbrev pub bytes_16 : ℕ
bytes_16 = 0

abbrev pub bytes_24 : ℕ
bytes_24 = 1

abbrev pub bytes_32 : ℕ
bytes_32 = 2

unfoldable pub to_bytes : ℕ → ℕ
to_bytes size = mali_gralloc_intfmt_afrc_coding_unit_bytes_unwrap size

-- `m_modifiers &= ~(mask << shift); m_modifiers |= size << shift`.
unfoldable pub set_coding_size : ℕ → InternalFormat → ℕ → InternalFormat
set_coding_size shift f size = record f {
  m_modifiers =
      bit_or
        (bit_and f.m_modifiers
          (complement 32 (mali_gralloc_intfmt_afrc_coding_unit_bytes_mask * 2 ^ shift)))
        (size * 2 ^ shift);
}

-- `(m_modifiers >> shift) & mask`.
unfoldable pub get_coding_size : ℕ → InternalFormat → ℕ
get_coding_size shift f =
    bit_and (f.m_modifiers / 2 ^ shift) mali_gralloc_intfmt_afrc_coding_unit_bytes_mask

unfoldable pub set_afrc_rgba_coding_size : InternalFormat → ℕ → InternalFormat
set_afrc_rgba_coding_size f size =
    set_coding_size mali_gralloc_intfmt_afrc_rgba_coding_unit_bytes_shift f size

unfoldable pub get_afrc_rgba_coding_size : InternalFormat → ℕ
get_afrc_rgba_coding_size f =
    get_coding_size mali_gralloc_intfmt_afrc_rgba_coding_unit_bytes_shift f

-- The luma field is the RGBA field.
unfoldable pub set_afrc_luma_coding_size : InternalFormat → ℕ → InternalFormat
set_afrc_luma_coding_size f size =
    set_coding_size mali_gralloc_intfmt_afrc_rgba_coding_unit_bytes_shift f size

unfoldable pub set_afrc_chroma_coding_size : InternalFormat → ℕ → InternalFormat
set_afrc_chroma_coding_size f size =
    set_coding_size mali_gralloc_intfmt_afrc_chroma_coding_unit_bytes_shift f size

unfoldable pub get_afrc_chroma_coding_size : InternalFormat → ℕ
get_afrc_chroma_coding_size f =
    get_coding_size mali_gralloc_intfmt_afrc_chroma_coding_unit_bytes_shift f
