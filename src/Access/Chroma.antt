-- ===== src/Access/Chroma.antt =====
-- The two descriptions of a YUV 4:2:0 buffer with 8 bits: android_ycbcr and the flex layout.
use rk_hardware_libgralloc_b.Access.Flex.{
  FlexFormat, FlexPlane, flex_component_cb, flex_component_cr, flex_component_y, flex_format_ycbcr,
  flex_plane, flex_planes_of,
}
use rk_hardware_libgralloc_b.Access.Lock.{Ycbcr, ycbcr_layout}
use rk_hardware_libgralloc_b.Format.{
  mali_gralloc_format_internal_nv12, mali_gralloc_format_internal_nv21,
  mali_gralloc_format_internal_yu12, mali_gralloc_format_internal_yv12,
}
use rk_hardware_libgralloc_b.Hal.{Hal}
use rk_hardware_libgralloc_b.Handle.{ImportedHandle}
use rk_hardware_libgralloc_b.Prelude.{List, [], inl, inr, refl, some, ℕ, ◌∷◌, ◌≡◌, ◌⊎◌}

pub data IsYuv420 : ℕ → Type 0 where
  nv12 : IsYuv420 mali_gralloc_format_internal_nv12
  nv21 : IsYuv420 mali_gralloc_format_internal_nv21
  yv12 : IsYuv420 mali_gralloc_format_internal_yv12
  yu12 : IsYuv420 mali_gralloc_format_internal_yu12

abbrev pub flex_of_ycbcr : Ycbcr → FlexFormat × List FlexPlane
flex_of_ycbcr layout = (
  flex_format_ycbcr,
  flex_plane layout.y flex_component_y 8 8 1 layout.ystride 1 1
      ∷ flex_plane layout.cb flex_component_cb 8 8 layout.chroma_step layout.cstride 2 2
      ∷ flex_plane layout.cr flex_component_cr 8 8 layout.chroma_step layout.cstride 2 2
      ∷ [],
)

-- lock_ycbcr and lock_flex describe the same samples of a buffer of NV12, NV21, YV12 or YU12: the
-- flex planes have the addresses, the steps and the strides of android_ycbcr. For YV12 and YU12,
-- which have two chroma planes, the two must have the same byte stride.
pub flex_planes_of-ycbcr_layout :
    (hal : Hal) (hnd : ImportedHandle) (base_format : ℕ)
    → IsYuv420 base_format
    → ((base_format ≡ mali_gralloc_format_internal_yv12)
          ⊎ (base_format ≡ mali_gralloc_format_internal_yu12)
        → hnd.raw.plane_info.p1.byte_stride ≡ hnd.raw.plane_info.p2.byte_stride)
    → (layout : Ycbcr) × (ycbcr_layout hnd base_format ≡ some layout)
      × (flex_planes_of hal hnd base_format ≡ some (flex_of_ycbcr layout))
unfolding ycbcr_layout flex_planes_of
flex_planes_of-ycbcr_layout hal hnd base_format nv12 strides = (_, refl, refl)
flex_planes_of-ycbcr_layout hal hnd base_format nv21 strides = (_, refl, refl)
flex_planes_of-ycbcr_layout hal hnd base_format yv12 strides =
    let same = strides (inl refl) in (_, refl, simp (same) refl)
flex_planes_of-ycbcr_layout hal hnd base_format yu12 strides =
    let same = strides (inr refl) in (_, refl, simp (same) refl)
