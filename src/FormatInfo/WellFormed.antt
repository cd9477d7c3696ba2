-- ===== src/FormatInfo/WellFormed.antt =====
-- What the comments of format_info_t and the allocation code rely on, checked of every entry of
-- the table of formats.
use rk_hardware_libgralloc_b.Format.{
  mali_gralloc_format_internal_nv15, mali_gralloc_format_internal_nv30,
}
use rk_hardware_libgralloc_b.FormatInfo.Entry.{FormatInfo, at}
use rk_hardware_libgralloc_b.FormatInfo.Lookup.{find_format, get_format_info}
use rk_hardware_libgralloc_b.FormatInfo.Tables.{formats}
use rk_hardware_libgralloc_b.Hal.{Hal}
use rk_hardware_libgralloc_b.Prelude.{
  Bool, List, [], arith, leb, ltb, not, refl, some, true, ℕ, ◌%◌, ◌&&◌, ◌*◌, ◌==◌, ◌||◌, ◌∷◌, ◌≡◌,
  ◌≢◌,
}

-- The powers of two up to 2 ^ 7.
unfoldable pub is_power_of_two : ℕ → Bool
is_power_of_two n =
    (n == 1)
    || (n == 2)
    || (n == 4)
    || (n == 8)
    || (n == 16)
    || (n == 32)
    || (n == 64)
    || (n == 128)

-- Implication on Booleans.
unfoldable pub implies : Bool → Bool → Bool
implies a b = not a || b

-- Dimensions are aligned to powers of two. The sub-sampling of YUV formats is a power of two that
-- divides the alignment; that of other formats may be 0, which stands for none.
unfoldable pub has_geometry : FormatInfo → Bool
unfolding implies is_power_of_two
has_geometry f =
    is_power_of_two f.align_w
    && is_power_of_two f.align_h
    && is_power_of_two f.align_w_cpu
    && is_power_of_two f.tile_size
    && implies f.is_yuv ((f.align_w % f.hsub == 0) && (f.align_h % f.vsub == 0))
    && implies (f.is_yuv || ltb 1 f.npln) (is_power_of_two f.hsub && is_power_of_two f.vsub)
    && ((f.hsub == 0) || is_power_of_two f.hsub)
    && ((f.vsub == 0) || is_power_of_two f.vsub)
    && leb 1 f.npln
    && leb f.npln 3

-- A plane below `npln` has components and, where the layout is supported, a number of bits per
-- pixel that fills whole bytes at the CPU alignment; no other plane has components.
unfoldable pub describes_plane : FormatInfo → ℕ → Bool
unfolding implies
describes_plane f plane =
    implies (ltb plane f.npln) (
      leb 1 (at f.ncmp plane)
      && leb (at f.ncmp plane) 4
      && implies f.linear (leb 1 (at f.bpp plane))
      && implies f.linear ((at f.bpp plane * f.align_w_cpu) % 8 == 0)
      && implies f.afbc (leb 1 (at f.bpp_afbc plane)))
    && implies (leb f.npln plane) (at f.ncmp plane == 0)

unfoldable pub describes_planes : FormatInfo → Bool
describes_planes f = describes_plane f 0 && describes_plane f 1 && describes_plane f 2

unfoldable pub every : (FormatInfo → Bool) → List FormatInfo → Bool
every p [] = true
every p (f ∷ fs) = p f && every p fs

-- What holds of every entry holds of the one that a lookup finds.
pub find_format-every :
    (p : FormatInfo → Bool) (fs : List FormatInfo) (base_format : ℕ) (f : FormatInfo)
    → every p fs ≡ true
    → find_format fs base_format ≡ some f
    → p f ≡ true
unfolding every find_format
find_format-every p [] base_format f h e = cc
find_format-every p (x ∷ fs) base_format f h e =
    ground (arith, find_format-every p fs base_format f)

pub find_format-id :
    (fs : List FormatInfo) (base_format : ℕ) (f : FormatInfo)
    → find_format fs base_format ≡ some f
    → f.id ≡ base_format
unfolding find_format
find_format-id [] base_format f e = cc
find_format-id (x ∷ fs) base_format f e = ground (arith, find_format-id fs base_format f)

every-has_geometry : (hal : Hal) → every has_geometry (formats hal) ≡ true
unfolding every has_geometry formats
every-has_geometry hal = refl

every-describes_planes :
    (hal : Hal)
    → every
        (λ f.
          describes_planes f
          || (f.id == mali_gralloc_format_internal_nv15)
          || (f.id == mali_gralloc_format_internal_nv30))
        (formats hal)
      ≡ true
unfolding every describes_planes describes_plane formats
every-describes_planes hal = refl

-- Every format that the lookup finds has the requested id, power-of-two alignments and from one to
-- three planes. Its sub-sampling is a power of two, or 0 for a format of a single plane that is not
-- YUV, and divides its alignment if it is YUV.
pub get_format_info-has_geometry :
    (hal : Hal) (base_format : ℕ) (f : FormatInfo)
    → get_format_info hal base_format ≡ some f
    → (f.id ≡ base_format) × (has_geometry f ≡ true)
unfolding get_format_info
get_format_info-has_geometry hal base_format f e = (
  find_format-id (formats hal) base_format f e,
  find_format-every has_geometry (formats hal) base_format f (every-has_geometry hal) e,
)

-- Every format that the lookup finds, other than NV15 and NV30, describes its planes: those below
-- npln have one to four components and, where supported, bits per pixel that fill whole bytes at
-- the CPU alignment, and those from npln on have no component.
pub get_format_info-describes_planes :
    (hal : Hal) (base_format : ℕ) (f : FormatInfo)
    → get_format_info hal base_format ≡ some f
    → base_format ≢ mali_gralloc_format_internal_nv15
    → base_format ≢ mali_gralloc_format_internal_nv30
    → describes_planes f ≡ true
unfolding get_format_info
get_format_info-describes_planes hal base_format f e n15 n30 = ground (
  arith,
  n15,
  n30,
  find_format-id (formats hal) base_format f e,
  find_format-every _ (formats hal) base_format f (every-describes_planes hal) e,
)
