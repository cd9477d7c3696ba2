-- ===== src/Selection/Choice.antt =====
-- What the loop of get_best_format (src/core/formats.cpp) finds, and what is chosen.
use mathlib.Core.Path.{subst}
use native.Mathlib.Nat.{le_refl, le_trans}
use rk_hardware_libgralloc_b.FormatInfo.{FormatInfo}
use rk_hardware_libgralloc_b.InternalFormat.{Checked, InternalFormat, abort, get_base, ok}
use rk_hardware_libgralloc_b.Prelude.{
  Bool-cases, List, Option, [], arith, inl, inr, ltb, none, refl, some, sym, ℕ, ◌<◌, ◌==◌, ◌∙◌, ◌∷◌,
  ◌≡◌, ◌≤◌, ◌⊎◌,
}
use rk_hardware_libgralloc_b.Selection.Best.{BestSoFar, find_best, take_candidate}

-- `x` is an element of the list.
unfoldable pub Among : FormatInfo → List FormatInfo → Type 0
Among x [] = ⊥
Among x (y ∷ ys) = (x ≡ y) ⊎ Among x ys

-- The loop's record of the best and of the requested format: what it holds was offered.
pub record IsRecord (requested : ℕ) (Offered : ℕ → InternalFormat → Type 0) (best : BestSoFar)
    : Type 0 where
  pub best_source :
      (best.best_fmt_grade ≡ 0)
      ⊎ (Offered best.best_fmt_grade best.first_of_best_formats × (0 < best.num_supported_formats))
  pub req_source :
      (best.req_format_grade ≡ 0)
      ⊎ (Offered best.req_format_grade best.req_format × (get_base best.req_format ≡ requested))

take_candidate-IsRecord :
    (requested : ℕ) (Offered : ℕ → InternalFormat → Type 0) (grade : ℕ) (format : InternalFormat)
    (best : BestSoFar)
    → Offered grade format
    → IsRecord requested Offered best
    → IsRecord requested Offered (take_candidate requested (some (grade, format)) best)
unfolding take_candidate
take_candidate-IsRecord requested Offered grade format best offer r = record {
  best_source = elim (Bool-cases (ltb best.best_fmt_grade grade)) [
    | inl better ↦ rw better (inr (offer, omega arith))
    | inr worse ↦ rw worse (elim r.best_source [
      | inl zero_grade ↦ inl zero_grade
      | inr (source, _) ↦ inr (source, omega arith)
    ])
  ];
  req_source = elim (Bool-cases (get_base format == requested)) [
    | inl same ↦ simp same (inr (offer, ground (arith, same)))
    | inr differ ↦ simp differ r.req_source
  ];
}

take_candidate-grade :
    (requested grade : ℕ) (format : InternalFormat) (best : BestSoFar)
    → (best.best_fmt_grade ≤ (take_candidate requested (some (grade, format)) best).best_fmt_grade)
      × (grade ≤ (take_candidate requested (some (grade, format)) best).best_fmt_grade)
unfolding take_candidate
take_candidate-grade requested grade format best = (ground arith, ground arith)

candidate_cases :
    (c : Checked (Option (ℕ × InternalFormat)))
    → (c ≡ abort)
      ⊎ (c ≡ ok none)
      ⊎ ((grade : ℕ) × (format : InternalFormat) × (c ≡ ok (some (grade, format))))
candidate_cases abort = inl refl
candidate_cases (ok none) = inr (inl refl)
candidate_cases (ok (some (grade, format))) = inr (inr (grade, format, refl))

module _ (requested : ℕ) (candidate : FormatInfo → Checked (Option (ℕ × InternalFormat))) where
  find_best-abort :
      (x : FormatInfo) (fs : List FormatInfo) (best found : BestSoFar)
      → candidate x ≡ abort
      → find_best requested candidate (x ∷ fs) best ≡ ok found
      → ⊥
  unfolding find_best
  find_best-abort x fs best found c e =
      let stuck : find_best requested candidate (x ∷ fs) best ≡ abort = rw c refl in cc

  find_best-ok :
      (x : FormatInfo) (fs : List FormatInfo) (best : BestSoFar)
      (graded : Option (ℕ × InternalFormat))
      → candidate x ≡ ok graded
      → find_best requested candidate (x ∷ fs) best
        ≡ find_best requested candidate fs (take_candidate requested graded best)
  unfolding find_best
  find_best-ok x fs best graded c = rw c refl

  pub find_best-IsRecord :
      (Offered : ℕ → InternalFormat → Type 0) (fs : List FormatInfo) (best found : BestSoFar)
      → ((x : FormatInfo) (grade : ℕ) (format : InternalFormat)
          → Among x fs
          → candidate x ≡ ok (some (grade, format))
          → Offered grade format)
      → IsRecord requested Offered best
      → find_best requested candidate fs best ≡ ok found
      → IsRecord requested Offered found
  unfolding find_best Among take_candidate
  find_best-IsRecord Offered [] best found offers r e =
      let same : best ≡ found = cc in subst (IsRecord requested Offered) same r
  find_best-IsRecord Offered (x ∷ fs) best found offers r e =
      let later =
        λ (y : FormatInfo) (grade : ℕ) (format : InternalFormat) (among : Among y fs)
            (c : candidate y ≡ ok (some (grade, format))).
          offers y grade format (inr among) c in
      elim (candidate_cases (candidate x)) [
        | inl stop ↦ absurd (find_best-abort x fs best found stop e)
        | inr (inl skip) ↦
            find_best-IsRecord Offered fs best found later r
              (sym (find_best-ok x fs best none skip) ∙ e)
        | inr (inr (grade, format, graded)) ↦
            find_best-IsRecord Offered fs (take_candidate requested (some (grade, format)) best)
              found later
              (take_candidate-IsRecord requested Offered grade format best
                (offers x grade format (inl refl) graded) r)
              (sym (find_best-ok x fs best (some (grade, format)) graded) ∙ e)
      ]

  pub find_best-grade :
      (fs : List FormatInfo) (best found : BestSoFar)
      → find_best requested candidate fs best ≡ ok found
      → (best.best_fmt_grade ≤ found.best_fmt_grade)
        × ((x : FormatInfo) (grade : ℕ) (format : InternalFormat)
            → Among x fs
            → candidate x ≡ ok (some (grade, format))
            → grade ≤ found.best_fmt_grade)
  unfolding find_best take_candidate Among
  find_best-grade [] best found e =
      let same : best ≡ found = cc in (rw same (le_refl _), λ x grade format among c. absurd among)
  find_best-grade (x ∷ fs) best found e = elim (candidate_cases (candidate x)) [
    | inl stop ↦ absurd (find_best-abort x fs best found stop e)
    | inr (inl skip) ↦
        let (rest, all) =
          find_best-grade fs best found (sym (find_best-ok x fs best none skip) ∙ e) in
        (
          rest,
          λ y grade format among c. elim among [
            | inl head ↦
                let impossible : candidate x ≡ ok (some (grade, format)) = rw⁻¹ head c in cc
            | inr tail ↦ all y grade format tail c
          ],
        )
    | inr (inr (grade, format, graded)) ↦
        let next = take_candidate requested (some (grade, format)) best in
        let (rest, all) =
          find_best-grade fs next found
            (sym (find_best-ok x fs best (some (grade, format)) graded) ∙ e) in
        let (kept, taken) = take_candidate-grade requested grade format best in
        (
          le_trans kept rest,
          λ y other form among c. elim among [
            | inl head ↦
                let again : candidate x ≡ ok (some (other, form)) = rw⁻¹ head c in
                let same : other ≡ grade = cc in rw same (le_trans taken rest)
            | inr tail ↦ all y other form tail c
          ],
        )
  ]
