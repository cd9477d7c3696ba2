-- ===== src/Selection/Optimal.antt =====
-- get_best_format of src/core/formats.cpp returns a format of the highest grade, or the requested
-- one where a CPU takes part.
use rk_hardware_libgralloc_b.Capabilities.{Platform, contains, mali_gralloc_ip_cpu}
use rk_hardware_libgralloc_b.Format.{mali_gralloc_format_internal_undefined}
use rk_hardware_libgralloc_b.FormatInfo.{FormatInfo, formats, get_format_info}
use rk_hardware_libgralloc_b.Hal.{Hal}
use rk_hardware_libgralloc_b.InternalFormat.{
  Checked, InternalFormat, abort, get_base, invalid, ok, ◌>>=◌,
}
use rk_hardware_libgralloc_b.Prelude.{
  Bool-cases, Option, arith, false, inl, inr, ltb, lt→ltb, none, refl, some, suc, true, zero, ℕ,
  ◌<◌, ◌==◌, ◌||◌, ◌∙◌, ◌≡◌, ◌≢◌, ◌≤◌, ◌⊎◌,
}
use rk_hardware_libgralloc_b.Selection.Best.{
  BestSoFar, FmtProps, choose_best, find_best, get_best_format, get_supported_format,
  grade_candidate, grade_supported, keep_graded, no_best,
}
use rk_hardware_libgralloc_b.Selection.Choice.{Among, IsRecord, find_best-IsRecord, find_best-grade}
use rk_hardware_libgralloc_b.Selection.Grade.{grade_format, is_format_compatible}

-- A grade and a format that the loop of get_best_format accepts from some entry of the table.
pub record IsCandidate (hal : Hal) (platform : Platform) (req_info : FormatInfo)
    (requested usage producers consumers grade : ℕ) (format : InternalFormat) : Type 0 where
  pub source : FormatInfo
  pub listed : Among source (formats hal)
  pub graded :
      grade_candidate hal platform req_info requested usage producers consumers source
      ≡ ok (some (grade, format))

keep_graded-positive :
    (hal : Hal) (platform : Platform) (format other : InternalFormat) (g grade : ℕ)
    → keep_graded hal platform format g ≡ some (grade, other)
    → 0 < grade
unfolding keep_graded
keep_graded-positive hal platform format other zero grade e = cc
keep_graded-positive hal platform format other (suc n) grade e =
    let nonzero : (suc n == 0) ≡ false = ground arith in
    let kept = rw nonzero at e in let same : suc n ≡ grade = cc in omega arith

grade_supported-positive :
    (hal : Hal) (platform : Platform) (requested : ℕ) (supported : Option FmtProps) (grade : ℕ)
    (format : InternalFormat)
    → grade_supported hal platform requested supported ≡ ok (some (grade, format))
    → 0 < grade
unfolding grade_supported
grade_supported-positive hal platform requested none grade format e = cc
grade_supported-positive hal platform requested (some fmt) grade format e =
    go (grade_format hal fmt.format requested) refl
  where
    go : (checked : Checked ℕ) → grade_format hal fmt.format requested ≡ checked → 0 < grade
    go abort eq = let stuck = rw eq at e in cc
    go (ok g) eq =
        let kept = rw eq at e in keep_graded-positive hal platform fmt.format format g grade cc

bind-positive :
    (hal : Hal) (platform : Platform) (requested : ℕ) (checked : Checked (Option FmtProps))
    (grade : ℕ) (format : InternalFormat)
    → (checked >>= grade_supported hal platform requested) ≡ ok (some (grade, format))
    → 0 < grade
bind-positive hal platform requested abort grade format e = cc
bind-positive hal platform requested (ok supported) grade format e =
    grade_supported-positive hal platform requested supported grade format e

module _ (hal : Hal) (platform : Platform) (requested usage producers consumers : ℕ)
    (req_info : FormatInfo) (found : get_format_info hal requested ≡ some req_info) where
  candidate-positive :
      (grade : ℕ) (format : InternalFormat)
      → IsCandidate hal platform req_info requested usage producers consumers grade format
      → 0 < grade
  unfolding grade_candidate
  candidate-positive grade format c =
      elim (Bool-cases (is_format_compatible hal req_info c.source)) [
        | inl compatible ↦
            bind-positive hal platform requested
              (get_supported_format hal platform c.source usage producers consumers) grade format
              (rw compatible at c.graded)
        | inr other ↦ let skipped = rw other at c.graded in cc
      ]

  loop_result :
      (checked : Checked BestSoFar) (f : InternalFormat)
      → (checked >>= λ best. ok (choose_best producers consumers best)) ≡ ok f
      → (best : BestSoFar) × (checked ≡ ok best) × (f ≡ choose_best producers consumers best)
  loop_result abort f e = cc
  loop_result (ok best) f e = (best, refl, cc)

  get_best_format-loop :
      (f : InternalFormat)
      → get_best_format hal platform requested usage producers consumers ≡ ok f
      → (best : BestSoFar) × (find_best requested
            (grade_candidate hal platform req_info requested usage producers consumers)
            (formats hal)
            no_best
          ≡ ok best)
        × (f ≡ choose_best producers consumers best)
  unfolding get_best_format
  get_best_format-loop f e =
      elim (Bool-cases (requested == mali_gralloc_format_internal_undefined)) [
        | inl undefined ↦ let stuck = rw undefined at e in cc
        | inr defined ↦ let run = rw (defined, found) at e in loop_result _ f run
      ]

  -- The record that the loop ends with, of candidates.
  loop-IsRecord :
      (best : BestSoFar)
      → find_best requested
          (grade_candidate hal platform req_info requested usage producers consumers)
          (formats hal)
          no_best
        ≡ ok best
      → IsRecord requested
          (IsCandidate hal platform req_info requested usage producers consumers)
          best
  loop-IsRecord best e =
      find_best-IsRecord requested
        (grade_candidate hal platform req_info requested usage producers consumers)
        (IsCandidate hal platform req_info requested usage producers consumers) (formats hal)
        no_best best
        (λ x grade format among graded. record { source = x; listed = among; graded = graded })
        (record { best_source = inl refl; req_source = inl refl }) e

-- The two choices where something was found.
choose_best-requested :
    (producers consumers : ℕ) (best : BestSoFar)
    → 0 < best.num_supported_formats
    → best.req_format_grade ≡ best.best_fmt_grade
    → 0 < best.best_fmt_grade
    → choose_best producers consumers best ≡ best.req_format
unfolding choose_best
choose_best-requested producers consumers best counted same positive = ground arith

choose_best-first :
    (producers consumers : ℕ) (best : BestSoFar)
    → 0 < best.num_supported_formats
    → best.req_format_grade ≢ best.best_fmt_grade
    → contains producers mali_gralloc_ip_cpu ≡ false
    → contains consumers mali_gralloc_ip_cpu ≡ false
    → choose_best producers consumers best ≡ best.first_of_best_formats
unfolding choose_best
choose_best-first producers consumers best counted differ p c =
    let some_found : ltb 0 best.num_supported_formats ≡ true = lt→ltb _ _ counted in
    let not_best : (best.req_format_grade == best.best_fmt_grade) ≡ false =
      ground (arith, differ) in
    simp (some_found, not_best, p, c) refl

choose_best-cpu :
    (producers consumers : ℕ) (best : BestSoFar)
    → (contains producers mali_gralloc_ip_cpu || contains consumers mali_gralloc_ip_cpu) ≡ true
    → (choose_best producers consumers best ≡ invalid)
      ⊎ (choose_best producers consumers best ≡ best.req_format)
unfolding choose_best
choose_best-cpu producers consumers best cpu = ground arith

choose_best-cpu_none :
    (producers consumers : ℕ) (best : BestSoFar)
    → (contains producers mali_gralloc_ip_cpu || contains consumers mali_gralloc_ip_cpu) ≡ true
    → best.req_format_grade ≡ 0
    → choose_best producers consumers best ≡ invalid
unfolding choose_best
choose_best-cpu_none producers consumers best cpu zero_grade = ground arith

equal_cases : (a b : ℕ) → (a ≡ b) ⊎ (a ≢ b)
equal_cases a b = elim (Bool-cases (a == b)) [
  | inl same ↦ inl (ground arith)
  | inr differ ↦ inr λ e. ground arith
]

-- Where no CPU produces or consumes the buffer, the format that get_best_format returns for a
-- requested format of the table is as good as every candidate: there is a grade with which the loop
-- accepted it that no accepted grade exceeds.
pub get_best_format-best :
    (hal : Hal) (platform : Platform) (requested usage producers consumers : ℕ)
    (req_info : FormatInfo) (f : InternalFormat) (grade : ℕ) (format : InternalFormat)
    → get_format_info hal requested ≡ some req_info
    → contains producers mali_gralloc_ip_cpu ≡ false
    → contains consumers mali_gralloc_ip_cpu ≡ false
    → get_best_format hal platform requested usage producers consumers ≡ ok f
    → IsCandidate hal platform req_info requested usage producers consumers grade format
    → (best : ℕ) × (grade ≤ best)
      × IsCandidate hal platform req_info requested usage producers consumers best f
get_best_format-best hal platform requested usage producers consumers req_info f grade format found
      p c e candidate =
    let (best, run, chosen) =
      get_best_format-loop hal platform requested usage producers consumers req_info found f e in
    let r =
      loop-IsRecord hal platform requested usage producers consumers req_info found best run in
    let (_, all) =
      find_best-grade requested
        (grade_candidate hal platform req_info requested usage producers consumers) (formats hal)
        no_best best run in
    let le = all candidate.source grade format candidate.listed candidate.graded in
    let positive =
      candidate-positive hal platform requested usage producers consumers req_info found grade
        format candidate in
    elim r.best_source [
      | inl none_found ↦ absurd (omega arith)
      | inr (source, counted) ↦ elim (equal_cases best.req_format_grade best.best_fmt_grade) [
        | inl same ↦ elim r.req_source [
          | inl zero_grade ↦ absurd (omega arith)
          | inr (offer, _) ↦ (
            best.req_format_grade,
            omega arith,
            rw (chosen ∙ choose_best-requested producers consumers best counted same (omega arith))
                offer,
          )
        ]
        | inr differ ↦ (
          best.best_fmt_grade,
          le,
          rw (chosen ∙ choose_best-first producers consumers best counted differ p c) source,
        )
      ]
    ]

-- Where a CPU produces or consumes the buffer, the format that get_best_format returns is undefined
-- or a candidate for the requested base format itself.
pub get_best_format-cpu :
    (hal : Hal) (platform : Platform) (requested usage producers consumers : ℕ)
    (req_info : FormatInfo) (f : InternalFormat)
    → get_format_info hal requested ≡ some req_info
    → (contains producers mali_gralloc_ip_cpu || contains consumers mali_gralloc_ip_cpu) ≡ true
    → get_best_format hal platform requested usage producers consumers ≡ ok f
    → (f ≡ invalid)
      ⊎ ((get_base f ≡ requested)
          × (grade : ℕ) × IsCandidate hal platform req_info requested usage producers consumers
              grade f)
get_best_format-cpu hal platform requested usage producers consumers req_info f found cpu e =
    let (best, run, chosen) =
      get_best_format-loop hal platform requested usage producers consumers req_info found f e in
    let r =
      loop-IsRecord hal platform requested usage producers consumers req_info found best run in
    elim r.req_source [
      | inl zero_grade ↦ inl (chosen ∙ choose_best-cpu_none producers consumers best cpu zero_grade)
      | inr (offer, base) ↦ elim (choose_best-cpu producers consumers best cpu) [
        | inl undefined ↦ inl (chosen ∙ undefined)
        | inr requested_format ↦ inr (
          rw (chosen ∙ requested_format) base,
          best.req_format_grade,
          rw (chosen ∙ requested_format) offer,
        )
      ]
    ]
