-- ===== src/FormatInfo/Entry.antt =====
-- The entries of the two format tables, and arrays with an element for each plane.
use rk_hardware_libgralloc_b.Prelude.{
  Bool, arith, if◌then◌else◌, refl, same_bool, suc, zero, ℕ, ◌&&◌, ◌+◌, ◌<◌, ◌==◌, ◌^◌, ◌≡◌,
}

-- An array of `max_planes` elements, indexed by plane. No index is above 2 in the sources.
pub record Planes {ℓ} (A : Type ℓ) : Type ℓ where
  pub p0 : A
  pub p1 : A
  pub p2 : A

abbrev pub planes {ℓ} : {A : Type ℓ} → A → A → A → Planes A
planes a b c = record { p0 = a; p1 = b; p2 = c }

abbrev pub at {ℓ} : {A : Type ℓ} → Planes A → ℕ → A
at ps zero = ps.p0
at ps (suc zero) = ps.p1
at ps (suc (suc n)) = ps.p2

abbrev pub put {ℓ} : {A : Type ℓ} → Planes A → ℕ → A → Planes A
put ps zero a = record ps { p0 = a }
put ps (suc zero) a = record ps { p1 = a }
put ps (suc (suc n)) a = record ps { p2 = a }

-- A write to one of the three planes.
pub at-put {ℓ} :
    {A : Type ℓ} (ps : Planes A) (i j : ℕ) (a : A)
    → i < 3
    → j < 3
    → at (put ps i a) j ≡ (if i == j then a else at ps j)
at-put ps zero zero a hi hj = refl
at-put ps zero (suc zero) a hi hj = refl
at-put ps zero (suc (suc j)) a hi hj = ground arith
at-put ps (suc zero) zero a hi hj = refl
at-put ps (suc zero) (suc zero) a hi hj = refl
at-put ps (suc zero) (suc (suc j)) a hi hj = ground arith
at-put ps (suc (suc i)) zero a hi hj = ground arith
at-put ps (suc (suc i)) (suc zero) a hi hj = ground arith
at-put ps (suc (suc i)) (suc (suc j)) a hi hj = ground arith

pub record FormatInfo : Type 0 where
  pub id : ℕ
  pub npln : ℕ
  pub ncmp : Planes ℕ
  pub bps : ℕ
  pub bpp_afbc : Planes ℕ
  pub bpp : Planes ℕ
  pub hsub : ℕ
  pub vsub : ℕ
  pub align_w : ℕ
  pub align_h : ℕ
  pub align_w_cpu : ℕ
  pub tile_size : ℕ
  pub has_alpha : Bool
  pub is_rgb : Bool
  pub is_yuv : Bool
  pub afbc : Bool
  pub linear : Bool
  pub yuv_transform : Bool
  pub flex : Bool
  pub block_linear : Bool
  pub afrc : Bool
  pub permitted_usage : ℕ

-- The total number of components in the format.
unfoldable pub total_components : FormatInfo → ℕ
total_components f = f.ncmp.p0 + f.ncmp.p1 + f.ncmp.p2

unfoldable pub is_same_or_components_reordered : FormatInfo → FormatInfo → Bool
is_same_or_components_reordered x y =
    (x.npln == y.npln)
    && (total_components x == total_components y)
    && (x.bps == y.bps)
    && same_bool x.is_yuv y.is_yuv
    && (x.hsub == y.hsub)
    && (x.vsub == y.vsub)

-- format_support_flags: a set of these bits.
abbrev pub f_none : ℕ
f_none = 0

abbrev pub f_lin : ℕ
f_lin = 2 ^ 0

abbrev pub f_afbc : ℕ
f_afbc = 2 ^ 1

abbrev pub f_afrc : ℕ
f_afrc = 2 ^ 2

abbrev pub f_bl_yuv : ℕ
f_bl_yuv = 2 ^ 3

pub record FormatIpSupport : Type 0 where
  pub id : ℕ
  pub cpu_wr : ℕ
  pub cpu_rd : ℕ
  pub gpu_wr : ℕ
  pub gpu_rd : ℕ
  pub dpu_wr : ℕ
  pub dpu_rd : ℕ
  pub dpu_aeu_wr : ℕ
  pub vpu_wr : ℕ
  pub vpu_rd : ℕ
  pub cam_wr : ℕ
