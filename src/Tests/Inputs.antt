-- ===== src/Tests/Inputs.antt =====
-- The inputs that the examples share.
use rk_hardware_libgralloc_b.AllocType.{AllocType, no_afrc, uncompressed}
use rk_hardware_libgralloc_b.Format.{
  mali_gralloc_format_internal_nv12, mali_gralloc_format_internal_rgba_8888,
}
use rk_hardware_libgralloc_b.FormatInfo.{FormatInfo, find_format, formats, get_format_info, planes}
use rk_hardware_libgralloc_b.Hal.{sample_hal}
use rk_hardware_libgralloc_b.InternalFormat.{Checked, InternalFormat, abort, invalid, ok}
use rk_hardware_libgralloc_b.Prelude.{Option, false, none, refl, some, ℕ, ◌≡◌}

abbrev pub no_info : FormatInfo
no_info = record {
  id = 0;
  npln = 0;
  ncmp = planes 0 0 0;
  bps = 0;
  bpp_afbc = planes 0 0 0;
  bpp = planes 0 0 0;
  hsub = 0;
  vsub = 0;
  align_w = 0;
  align_h = 0;
  align_w_cpu = 0;
  tile_size = 0;
  has_alpha = false;
  is_rgb = false;
  is_yuv = false;
  afbc = false;
  linear = false;
  yuv_transform = false;
  flex = false;
  block_linear = false;
  afrc = false;
  permitted_usage = 0;
}

abbrev pub info_of : Option FormatInfo → FormatInfo
info_of none = no_info
info_of (some info) = info

abbrev pub no_type : AllocType
no_type = record {
  primary_type = uncompressed;
  is_multi_plane = false;
  is_tiled = false;
  is_padded = false;
  is_frontbuffer_safe = false;
  afrc = no_afrc;
}

abbrev pub type_of : Option AllocType → AllocType
type_of none = no_type
type_of (some t) = t

abbrev pub format_of : Checked InternalFormat → InternalFormat
format_of (ok f) = f
format_of abort = invalid

-- The entries of RGBA_8888 and NV12.
abbrev pub rgba_id : ℕ
rgba_id = mali_gralloc_format_internal_rgba_8888 sample_hal

unfoldable pub rgba_info : FormatInfo
rgba_info = info_of (get_format_info sample_hal rgba_id)

pub rgba_found : get_format_info sample_hal rgba_id ≡ some rgba_info
unfolding rgba_info get_format_info find_format formats
rgba_found = refl

unfoldable pub nv12_info : FormatInfo
nv12_info = info_of (get_format_info sample_hal mali_gralloc_format_internal_nv12)

pub nv12_found : get_format_info sample_hal mali_gralloc_format_internal_nv12 ≡ some nv12_info
unfolding nv12_info get_format_info find_format formats
nv12_found = refl
