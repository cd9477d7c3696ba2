-- ===== src/Allocation/Lcm.antt =====
-- gcd and lcm of src/core/buffer_allocation.cpp, on uint32_t.
use native.Mathlib.Nat.{
  div-add-mod', div-eq_of_eq-mul_left, mod-eq_of_lt, mul-sub, mul_assoc, mul_comm,
}
use rk_hardware_libgralloc_b.Prelude.{
  Bool-cases, ap, arith, false, if◌then◌else◌, inl, inr, ltb, not, refl, suc, sym, zero, ℕ, ◌%◌,
  ◌&&◌, ◌*◌, ◌+◌, ◌-◌, ◌/◌, ◌<◌, ◌==◌, ◌^◌, ◌∙◌, ◌≡◌,
}
use rk_hardware_libgralloc_b.Prelude.Words.{int_lt, u32}

-- The loop `while (b != 0) { r = a % b; a = b; b = r; }`. Each round makes `b` smaller, so `b + 1`
-- rounds are enough.
unfoldable pub gcd_loop : ℕ → ℕ → ℕ → ℕ
gcd_loop zero a b = a
gcd_loop (suc fuel) a b = let rest = gcd_loop fuel b (a % b) in if b == 0 then a else rest

unfoldable pub gcd : ℕ → ℕ → ℕ
unfolding gcd_loop
gcd a b = if a == b then a else if ltb a b then gcd_loop (a + 1) b a else gcd_loop (b + 1) a b

unfoldable pub lcm : ℕ → ℕ → ℕ
lcm a b =
    if not (a == 0) && not (b == 0) then u32 (a * b) / gcd a b else (if int_lt b a then a else b)

-- `d` divides `n`.
abbrev pub Divides : ℕ → ℕ → Type 0
Divides d n = (k : ℕ) × (k * d ≡ n)

-- `d` is a common divisor of `a` and `b` that every other one divides.
pub record IsGcd (d a b : ℕ) : Type 0 where
  pub left : Divides d a
  pub right : Divides d b
  pub greatest : (c : ℕ) → Divides c a → Divides c b → Divides c d

Divides-mod : (d a b : ℕ) → Divides d b → Divides d (a % b) → Divides d a
Divides-mod d a b (k, ek) (m, em) =
    (a / b * k + m, omega (arith, ap (λ (t : ℕ). a / b * t) ek, div-add-mod' a b))

mod-Divides : (d a b : ℕ) → Divides d a → Divides d b → Divides d (a % b)
mod-Divides d a b (k, ek) (m, em) = (
  k - a / b * m,
  rw (mul_comm (k - a / b * m) d, mul-sub d k (a / b * m))
      (omega (arith, ap (λ (t : ℕ). a / b * t) em, div-add-mod' a b)),
)

gcd_loop-suc : (fuel a b : ℕ) → gcd_loop (suc fuel) a (suc b) ≡ gcd_loop fuel (suc b) (a % suc b)
unfolding gcd_loop
gcd_loop-suc fuel a b = ground arith

gcd_loop-IsGcd : (fuel a b : ℕ) → b < fuel → IsGcd (gcd_loop fuel a b) a b
unfolding gcd_loop
gcd_loop-IsGcd zero a b h = absurd (omega arith)
gcd_loop-IsGcd (suc fuel) a zero h = record {
  left = (1, omega arith);
  right = (0, omega arith);
  greatest = λ c da db. da;
}
gcd_loop-IsGcd (suc fuel) a (suc b) h =
    let rest = gcd_loop-IsGcd fuel (suc b) (a % suc b) (omega arith) in
    let d = gcd_loop fuel (suc b) (a % suc b) in
    rw (gcd_loop-suc fuel a b) (record {
      left = Divides-mod d a (suc b) rest.left rest.right;
      right = rest.left;
      greatest = λ c da db. rest.greatest c db (mod-Divides c a (suc b) da db);
    })

IsGcd-swap : {d a b : ℕ} → IsGcd d a b → IsGcd d b a
IsGcd-swap g = record { left = g.right; right = g.left; greatest = λ c da db. g.greatest c db da }

-- gcd returns the greatest common divisor of its arguments, whichever is larger.
gcd-IsGcd : (a b : ℕ) → IsGcd (gcd a b) a b
unfolding gcd
gcd-IsGcd a b = elim (Bool-cases (a == b)) [
  | inl same ↦
      rw same
        (record { left = (1, omega arith); right = (1, ground arith); greatest = λ c da db. da })
  | inr differ ↦ elim (Bool-cases (ltb a b)) [
    | inl less ↦ rw (differ, less) (IsGcd-swap (gcd_loop-IsGcd (a + 1) b a (omega arith)))
    | inr more ↦ rw (differ, more) (gcd_loop-IsGcd (b + 1) a b (omega arith))
  ]
]

-- The branch of lcm for two positive numbers.
lcm_quotient : (a b q : ℕ) → 0 < a → 0 < b → a * b < 2 ^ 32 → a * b / gcd a b ≡ q → lcm a b ≡ q
unfolding lcm
lcm_quotient a b q ha hb fits q_eq =
    let not_zero : (a == 0) ≡ false = ground arith in
    let not_zero_b : (b == 0) ≡ false = ground arith in
    let small : u32 (a * b) ≡ a * b = mod-eq_of_lt fits in rw (not_zero, not_zero_b, small) q_eq

-- The least common multiple of two positive numbers with a factor in common.
lcm_of_multiples :
    (a b m n g : ℕ)
    → 0 < a
    → 0 < b
    → a * b < 2 ^ 32
    → m * g ≡ a
    → n * g ≡ b
    → gcd a b ≡ g
    → (lcm a b ≡ m * b) × (lcm a b ≡ n * a) × (0 < lcm a b) × (lcm a b * g ≡ a * b)
unfolding lcm
lcm_of_multiples a b zero n g ha hb fits ea eb eg = absurd (omega arith)
lcm_of_multiples a b (suc m) zero g ha hb fits ea eb eg = absurd (omega arith)
lcm_of_multiples a b (suc m) (suc n) zero ha hb fits ea eb eg = absurd (omega arith)
lcm_of_multiples a b (suc m) (suc n) (suc g) ha hb fits ea eb eg =
    let product : suc m * b * suc g ≡ a * b = omega (
      arith,
      ap (λ (t : ℕ). t * b) ea,
      mul_assoc (suc m) (suc g) b,
      mul_assoc (suc m) b (suc g),
      mul_comm (suc g) b,
    ) in
    let other : suc n * a * suc g ≡ a * b = omega (
      arith,
      ap (λ (t : ℕ). a * t) eb,
      mul_assoc (suc n) a (suc g),
      mul_assoc (suc n) (suc g) a,
      mul_comm (suc g) a,
      mul_comm a (suc n * suc g),
    ) in
    let quotient : a * b / suc g ≡ suc m * b = div-eq_of_eq-mul_left (omega arith) (sym product) in
    let same : lcm a b ≡ suc m * b = lcm_quotient a b (suc m * b) ha hb fits (rw eg quotient) in
    let value : lcm a b ≡ suc n * a =
      same ∙ sym quotient ∙ div-eq_of_eq-mul_left (omega arith) (sym other) in
    (same, value, rw same (omega arith), rw same product)

-- For two numbers, not zero, whose product fits 32 bits, lcm is a positive multiple of both, gcd
-- divides both and is a multiple of every number that does, and the product of lcm and gcd is the
-- product of the two numbers.
pub lcm_lem :
    (a b : ℕ)
    → 0 < a
    → 0 < b
    → a * b < 2 ^ 32
    → Divides a (lcm a b)
      × Divides b (lcm a b)
      × (0 < lcm a b)
      × IsGcd (gcd a b) a b
      × (lcm a b * gcd a b ≡ a * b)
lcm_lem a b ha hb fits =
    let d = gcd-IsGcd a b in
    let (em, en, positive, product) =
      lcm_of_multiples a b (d.left.0) (d.right.0) (gcd a b) ha hb fits (d.left.1) (d.right.1)
        refl in
    ((d.right.0, sym en), (d.left.0, sym em), positive, d, product)
