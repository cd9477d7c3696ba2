-- ===== src/Heaps/Placing.antt =====
-- Which heap a buffer comes from.
use rk_hardware_libgralloc_b.Hal.{Hal}
use rk_hardware_libgralloc_b.Heaps.{
  DmaBufHeap, add_within_4g, does_hal_format_need_buffer_within_4g, does_usage_have_flag,
  heap_system, heap_system_uncached, is_platform_rk356x, is_platform_rk3588, pick_dma_buf_heap,
  pick_unprotected,
}
use rk_hardware_libgralloc_b.Prelude.{
  Bool, Bool-cases, arith, bit_or, false, inl, inr, refl, true, ℕ, ◌∙◌, ◌≡◌, ◌≢◌, ◌⊎◌,
}
use rk_hardware_libgralloc_b.Prelude.Bits.{bit, bit-bit_or, bit-le-one, has_bits, has_bits-pow}
use rk_hardware_libgralloc_b.Selection.Rk.{RkPlatform, rk3326, rk356x, rk3588}
use rk_hardware_libgralloc_b.Usages.{
  gralloc_usage_hw_video_encoder, gralloc_usage_protected, rk_gralloc_usage_within_4g,
}

-- A heap of the system whose memory may lie anywhere.
abbrev pub is_system_heap : DmaBufHeap → Bool
is_system_heap heap_system = true
is_system_heap heap_system_uncached = true
is_system_heap _ = false

within_4g-bit :
    (usage : ℕ)
    → has_bits (bit_or usage rk_gralloc_usage_within_4g) rk_gralloc_usage_within_4g ≡ true
unfolding bit
within_4g-bit usage =
    has_bits-pow (bit_or usage rk_gralloc_usage_within_4g) 56
    ∙ (let digit : bit 56 rk_gralloc_usage_within_4g ≡ 1 = refl in
        ground (arith, bit-bit_or 56 usage rk_gralloc_usage_within_4g, digit, bit-le-one 56 usage))

pick_unprotected-within_4g :
    (usage : ℕ)
    → has_bits usage rk_gralloc_usage_within_4g ≡ true
    → is_system_heap (pick_unprotected usage) ≡ false
unfolding pick_unprotected
pick_unprotected-within_4g usage low = ground arith

add_within_4g-encoder :
    (hal : Hal) (platform : RkPlatform) (usage hal_format : ℕ)
    → platform ≢ rk3326
    → (does_usage_have_flag usage gralloc_usage_hw_video_encoder ≡ true)
      ⊎ (hal_format ≡ hal.hal_yv12)
    → add_within_4g hal platform usage hal_format ≡ bit_or usage rk_gralloc_usage_within_4g
unfolding add_within_4g does_hal_format_need_buffer_within_4g is_platform_rk356x is_platform_rk3588
add_within_4g-encoder hal rk3326 usage hal_format other needed = absurd (other refl)
add_within_4g-encoder hal rk356x usage hal_format other needed = ground arith
add_within_4g-encoder hal rk3588 usage hal_format other needed = ground arith

-- On rk356x and rk3588 a buffer of the video encoder, and one of the HAL format YV12, never comes
-- from one of the two system heaps whose memory may lie above 4 GB.
pub pick_dma_buf_heap-within_4g :
    (hal : Hal) (platform : RkPlatform) (all_from_cma : Bool) (usage hal_format : ℕ)
    → platform ≢ rk3326
    → (does_usage_have_flag usage gralloc_usage_hw_video_encoder ≡ true)
      ⊎ (hal_format ≡ hal.hal_yv12)
    → is_system_heap (pick_dma_buf_heap hal platform all_from_cma usage hal_format) ≡ false
unfolding pick_dma_buf_heap
pick_dma_buf_heap-within_4g hal platform true usage hal_format other needed = refl
pick_dma_buf_heap-within_4g hal platform false usage hal_format other needed =
    elim (Bool-cases (has_bits usage gralloc_usage_protected)) [
      | inl protected ↦ rw protected refl
      | inr open_access ↦
          rw (open_access, add_within_4g-encoder hal platform usage hal_format other needed)
            (pick_unprotected-within_4g _ (within_4g-bit usage))
    ]
