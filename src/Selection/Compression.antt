-- ===== src/Selection/Compression.antt =====
-- When rk_gralloc_select_format (src/core/formats.cpp) compresses, and the framebuffer's size.
use rk_hardware_libgralloc_b.Format.{
  mali_gralloc_format_get_base, mali_gralloc_format_get_modifiers,
}
use rk_hardware_libgralloc_b.Hal.{Hal}
use rk_hardware_libgralloc_b.InternalFormat.{from_private, internal_format}
use rk_hardware_libgralloc_b.InternalFormat.Wrapper.{from_private-parts}
use rk_hardware_libgralloc_b.Prelude.{
  Bool, Bool-cases, arith, bit_or, false, if◌then◌else◌, inl, inr, refl, suc, true, zero, ℕ, ◌<◌,
  ◌==◌, ◌||◌, ◌≡◌,
}
use rk_hardware_libgralloc_b.Selection.Parties.{has_all_bits}
use rk_hardware_libgralloc_b.Selection.Rk.{
  FbSize, RkProperties, get_fb_size, is_uncompressed_fb_target, may_compress_client_layer,
  rk_gralloc_select_format, rk_internal_format, save_fb_size, select_client_layer, select_fb_target,
  touches_cpu,
}
use rk_hardware_libgralloc_b.Usages.{gralloc_usage_hw_fb}

is_uncompressed_fb_target-cpu :
    (hal : Hal) (usage internal_format : ℕ)
    → touches_cpu hal usage ≡ true
    → is_uncompressed_fb_target hal usage internal_format ≡ true
unfolding is_uncompressed_fb_target
is_uncompressed_fb_target-cpu hal usage internal_format cpu = ground arith

may_compress_client_layer-cpu :
    (hal : Hal) (properties : RkProperties) (usage internal_format : ℕ)
    → touches_cpu hal usage ≡ true
    → may_compress_client_layer hal properties usage internal_format ≡ false
unfolding may_compress_client_layer
may_compress_client_layer-cpu hal properties usage internal_format cpu = ground arith

or_true : (a : Bool) → (a || true) ≡ true
or_true true = refl
or_true false = refl

select_fb_target-cpu :
    (hal : Hal) (properties : RkProperties) (state : FbSize) (usage internal_format buffer_size : ℕ)
    → touches_cpu hal usage ≡ true
    → (select_fb_target hal properties state usage internal_format buffer_size).0
      ≡ (internal_format, 0)
unfolding select_fb_target
select_fb_target-cpu hal properties state usage internal_format buffer_size cpu =
    rw (is_uncompressed_fb_target-cpu hal usage internal_format cpu, or_true) refl

select_client_layer-cpu :
    (hal : Hal) (properties : RkProperties) (state : FbSize) (usage internal_format buffer_size : ℕ)
    → touches_cpu hal usage ≡ true
    → (select_client_layer hal properties state usage internal_format buffer_size).0
      ≡ (internal_format, 0)
unfolding select_client_layer
select_client_layer-cpu hal properties state usage internal_format buffer_size cpu =
    rw (may_compress_client_layer-cpu hal properties usage internal_format cpu) refl

select_format-cpu :
    (hal : Hal) (properties : RkProperties) (state : FbSize) (req_format usage buffer_size : ℕ)
    → touches_cpu hal usage ≡ true
    → (rk_gralloc_select_format hal properties state req_format usage buffer_size).0
      ≡ from_private (bit_or (rk_internal_format hal req_format usage) 0)
unfolding rk_gralloc_select_format
select_format-cpu hal properties state req_format usage buffer_size cpu =
    elim (Bool-cases (has_all_bits usage gralloc_usage_hw_fb)) [
      | inl fb ↦
          rw
            (
              fb,
              select_fb_target-cpu hal properties state usage
                  (rk_internal_format hal req_format usage) buffer_size cpu,
            )
            refl
      | inr client ↦
          rw
            (
              client,
              select_client_layer-cpu hal properties state usage
                  (rk_internal_format hal req_format usage) buffer_size cpu,
            )
            refl
    ]

-- For a buffer that a CPU reads or writes the selection adds no modifier, on every board, with any
-- properties, whether or not it is for the framebuffer: the format has the base of the word that
-- the request and its usage map to, and exactly the modifier bits that this word has itself.
pub rk_gralloc_select_format-cpu :
    (hal : Hal) (properties : RkProperties) (state : FbSize) (req_format usage buffer_size : ℕ)
    → touches_cpu hal usage ≡ true
    → ((rk_gralloc_select_format hal properties state req_format usage buffer_size).0.m_format
        ≡ mali_gralloc_format_get_base (rk_internal_format hal req_format usage))
      × ((rk_gralloc_select_format hal properties state req_format usage buffer_size).0.m_modifiers
          ≡ mali_gralloc_format_get_modifiers (rk_internal_format hal req_format usage))
rk_gralloc_select_format-cpu hal properties state req_format usage buffer_size cpu =
    rw (select_format-cpu hal properties state req_format usage buffer_size cpu)
      (from_private-parts (rk_internal_format hal req_format usage))

suc_nonzero : (n : ℕ) → (suc n == 0) ≡ false
suc_nonzero n = ground arith

-- The size that is known after a save: the variable's, else the property's, else the saved one.
get_fb_size-save :
    (s p fb_size : ℕ)
    → (get_fb_size (save_fb_size (record { s_fb_size = s; property = p }) fb_size)).0
      ≡ (if s == 0 then (if p == 0 then fb_size else p) else s)
unfolding get_fb_size save_fb_size
get_fb_size-save zero zero zero = refl
get_fb_size-save zero zero (suc n) = simp (suc_nonzero n) refl
get_fb_size-save zero (suc p) n = simp (suc_nonzero p) refl
get_fb_size-save (suc s) p n = simp (suc_nonzero s) refl

-- Once a size has been saved that is not 0, saving another one changes nothing: the first
-- framebuffer decides which client layers count as small.
pub save_fb_size-first :
    (state : FbSize) (first later : ℕ)
    → 0 < first
    → (get_fb_size (save_fb_size (save_fb_size state first) later)).0
      ≡ (get_fb_size (save_fb_size state first)).0
unfolding save_fb_size get_fb_size
save_fb_size-first state first later positive = go state.s_fb_size state.property first positive
  where
    go :
        (s p n : ℕ)
        → 0 < n
        → (get_fb_size
            (save_fb_size (save_fb_size (record { s_fb_size = s; property = p }) n) later)).0
          ≡ (get_fb_size (save_fb_size (record { s_fb_size = s; property = p }) n)).0
    go zero zero zero h = absurd (omega arith)
    go zero zero (suc n) h = simp (suc_nonzero n) refl
    go zero (suc p) n h = simp (suc_nonzero p) refl
    go (suc s) p n h = simp (suc_nonzero s) refl
