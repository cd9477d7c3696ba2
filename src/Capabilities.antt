-- ===== src/Capabilities.antt =====
-- src/capabilities/capabilities.h and capabilities.cpp: the IP blocks that produce and consume a
-- buffer, and the features that each of them supports.
use rk_hardware_libgralloc_b.Prelude.{
  Bool, Option, bit_and, bit_or, false, if◌then◌else◌, none, not, some, true, ℕ, ◌&&◌, ◌==◌, ◌^◌,
  ◌||◌,
}
use rk_hardware_libgralloc_b.Prelude.Bits.{complement, has_bits}

abbrev pub mali_gralloc_ip_none : ℕ
mali_gralloc_ip_none = 0

abbrev pub mali_gralloc_ip_cpu : ℕ
mali_gralloc_ip_cpu = 2 ^ 0

abbrev pub mali_gralloc_ip_gpu : ℕ
mali_gralloc_ip_gpu = 2 ^ 1

abbrev pub mali_gralloc_ip_dpu : ℕ
mali_gralloc_ip_dpu = 2 ^ 2

abbrev pub mali_gralloc_ip_dpu_aeu : ℕ
mali_gralloc_ip_dpu_aeu = 2 ^ 3

abbrev pub mali_gralloc_ip_vpu : ℕ
mali_gralloc_ip_vpu = 2 ^ 4

abbrev pub mali_gralloc_ip_cam : ℕ
mali_gralloc_ip_cam = 2 ^ 5

pub data Feature : Type 0 where
  format_r10g10b10a2 format_r16g16b16a16_float yuv_bl_8 yuv_bl_10 : Feature
  afbc_16x16 afbc_32x8 afbc_64x4 afbc_block_split_feature : Feature
  afbc_tiled_headers afbc_double_body afbc_write_non_sparse afbc_yuv : Feature
  afbc_format_r16g16b16a16_float afrc_rot_layout afrc_scan_layout disabled : Feature

pub data Permission : Type 0 where
  read write : Permission

-- The capabilities of an IP block: is_feature_supported, as its XML file says.
abbrev pub IpCapability : Type 0
IpCapability = Feature → Permission → Bool

-- What the XML files say; `none` is a block without one. Without a file for the GPU the process
-- ends, so that block has its capabilities.
pub record Platform : Type 0 where
  pub gpu : IpCapability
  pub dpu : Option IpCapability
  pub dpu_aeu : Option IpCapability
  pub vpu : Option IpCapability
  pub cam : Option IpCapability

-- The sets of blocks: producers_t and consumers_t are bit sets.
abbrev pub contains : ℕ → ℕ → Bool
contains ips ip = has_bits ip ips

abbrev pub is_empty : ℕ → Bool
is_empty ips = ips == 0

abbrev pub add_ip : ℕ → ℕ → ℕ
add_ip ips ip = bit_or ips ip

abbrev pub remove_ip : ℕ → ℕ → ℕ
remove_ip ips ip = bit_and ips (complement 32 ip)

unfoldable pub caps_supports_feature_cpu : Feature → Bool
caps_supports_feature_cpu format_r10g10b10a2 = true
caps_supports_feature_cpu format_r16g16b16a16_float = true
caps_supports_feature_cpu yuv_bl_8 = false
caps_supports_feature_cpu yuv_bl_10 = false
caps_supports_feature_cpu afbc_16x16 = false
caps_supports_feature_cpu afbc_32x8 = false
caps_supports_feature_cpu afbc_64x4 = false
caps_supports_feature_cpu afbc_block_split_feature = false
caps_supports_feature_cpu afbc_tiled_headers = false
caps_supports_feature_cpu afbc_double_body = false
caps_supports_feature_cpu afbc_write_non_sparse = false
caps_supports_feature_cpu afbc_yuv = false
caps_supports_feature_cpu afbc_format_r16g16b16a16_float = false
caps_supports_feature_cpu afrc_rot_layout = false
caps_supports_feature_cpu afrc_scan_layout = false
caps_supports_feature_cpu disabled = false

-- The body of the loop: does a block pose no restriction as producer and as consumer?
unfoldable pub ip_allows : ℕ → ℕ → Feature → ℕ → Option IpCapability → Bool
ip_allows producers consumers feature ip none = true
ip_allows producers consumers feature ip (some is_feature_supported) =
    (not (has_bits producers ip) || is_feature_supported feature write)
    && (not (has_bits consumers ip) || is_feature_supported feature read)

module _ (platform : Platform) where
  unfoldable pub ip_support_feature : ℕ → ℕ → Feature → Bool
  unfolding ip_allows
  ip_support_feature producers consumers feature =
      if (has_bits producers mali_gralloc_ip_cpu || has_bits consumers mali_gralloc_ip_cpu)
        && not (caps_supports_feature_cpu feature)
      then false
      else ip_allows producers consumers feature mali_gralloc_ip_gpu (some platform.gpu)
        && ip_allows producers consumers feature mali_gralloc_ip_dpu platform.dpu
        && ip_allows producers consumers feature mali_gralloc_ip_dpu_aeu platform.dpu_aeu
        && ip_allows producers consumers feature mali_gralloc_ip_vpu platform.vpu
        && ip_allows producers consumers feature mali_gralloc_ip_cam platform.cam

  -- The `support` of producers_t and of consumers_t alone.
  unfoldable pub producers_support : ℕ → Feature → Bool
  producers_support producers feature = ip_support_feature producers mali_gralloc_ip_none feature

  unfoldable pub consumers_support : ℕ → Feature → Bool
  consumers_support consumers feature = ip_support_feature mali_gralloc_ip_none consumers feature

  -- ip_t::present of a single block.
  unfoldable pub is_present : ℕ → Bool
  is_present ip = not (ip_support_feature ip ip disabled)
