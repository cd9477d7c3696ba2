-- ===== src/Prelude/Bits.antt =====
-- The native bit operations, read digit by digit: `bit k a` is binary digit `k` of `a`.
use Prim.Native.Nat.{
  ℕ, zero, suc, ◌+◌, ◌-◌, ◌*◌, ◌/◌, ◌%◌, ◌^◌, ◌≤◌, ◌<◌, min, max, bit_and, bit_or, digits, bitwise,
  bit_and-bitwise, bit_or-bitwise,
}
use mathlib.Core.Path.{◌≡◌, refl, sym, ap, ◌∙◌}
use mathlib.Core.Bool.{Bool, true, false, not, ◌&&◌}
use mathlib.Core.Logic.{inl, inr}
use native.Mathlib.Nat.{
  le_refl, eq-or-lt_of_le, le_of_suc-le-suc, pow-suc, one-le-pow, zero-add, suc-add, mul_comm,
  div-div-eq-div-mul,
}
use mathlib.Core.List.{List, [], ◌∷◌}
use native.Mathlib.Omega.{arith}
use rk_hardware_libgralloc_b.Prelude.Tests.{◌==◌}

unfoldable pub bit : ℕ → ℕ → ℕ
bit zero a = a % 2
bit (suc k) a = bit k (a / 2)

-- The native definition runs on fuel, and one more unit changes nothing once the first operand is
-- reached; so neither do several.
module _ (high : ℕ → ℕ) (digit : ℕ → ℕ → ℕ) where
  one_more :
      (fuel a b : ℕ) → a ≤ fuel → digits high digit (suc fuel) a b ≡ digits high digit fuel a b
  one_more fuel zero b reached = no_digits fuel
    where
      no_digits : (n : ℕ) → digits high digit (suc n) 0 b ≡ digits high digit n 0 b
      no_digits zero = refl
      no_digits (suc n) = refl
  one_more zero (suc a) b reached = absurd (omega arith)
  one_more (suc fuel) (suc a) b reached = rw (one_more fuel (suc a / 2) (b / 2) (omega arith)) refl

  several_more :
      (extra fuel a b : ℕ)
      → a ≤ fuel
      → digits high digit (extra + fuel) a b ≡ digits high digit fuel a b
  several_more zero fuel a b reached = rw (zero-add fuel) refl
  several_more (suc extra) fuel a b reached =
      rw (suc-add extra fuel)
        (one_more (extra + fuel) a b (omega arith) ∙ several_more extra fuel a b reached)

  split_digit :
      (a b : ℕ)
      → bitwise high digit (suc a) b
        ≡ bitwise high digit (suc a / 2) (b / 2) * 2 + digit (suc a % 2) (b % 2)
  split_digit a b =
      let half = suc a / 2 in
      let fuel : a - half + half ≡ a = omega arith in
      let enough : digits high digit a half (b / 2) ≡ digits high digit half half (b / 2) =
        ap (λ (n : ℕ). digits high digit n half (b / 2)) (sym fuel)
        ∙ several_more (a - half) half half (b / 2) (le_refl half) in
      omega (arith, enough)

bit_or_halves : (a b : ℕ) → bit_or a b ≡ bit_or (a / 2) (b / 2) * 2 + max (a % 2) (b % 2)
bit_or_halves zero b = simp bit_or-bitwise (omega arith)
bit_or_halves (suc a) b = simp bit_or-bitwise (split_digit (λ y. y) max a b)

bit_and_halves : (a b : ℕ) → bit_and a b ≡ bit_and (a / 2) (b / 2) * 2 + min (a % 2) (b % 2)
bit_and_halves zero b = simp bit_and-bitwise (omega arith)
bit_and_halves (suc a) b = simp bit_and-bitwise (split_digit (λ y. 0) min a b)

pub bit-le-one : (k a : ℕ) → bit k a ≤ 1
unfolding bit
bit-le-one zero a = omega arith
bit-le-one (suc k) a = bit-le-one k (a / 2)

pub bit-bit_and : (k a b : ℕ) → bit k (bit_and a b) ≡ min (bit k a) (bit k b)
unfolding bit
bit-bit_and zero a b = omega (arith, bit_and_halves a b)
bit-bit_and (suc k) a b =
    let half : bit_and a b / 2 ≡ bit_and (a / 2) (b / 2) = omega (arith, bit_and_halves a b) in
    rw half (bit-bit_and k (a / 2) (b / 2))

pub bit-bit_or : (k a b : ℕ) → bit k (bit_or a b) ≡ max (bit k a) (bit k b)
unfolding bit
bit-bit_or zero a b = omega (arith, bit_or_halves a b)
bit-bit_or (suc k) a b =
    let half : bit_or a b / 2 ≡ bit_or (a / 2) (b / 2) = omega (arith, bit_or_halves a b) in
    rw half (bit-bit_or k (a / 2) (b / 2))

pub bit-zero : (k : ℕ) → bit k 0 ≡ 0
unfolding bit
bit-zero zero = refl
bit-zero (suc k) = bit-zero k

-- Two numbers with the same digits are the same.
pub bit_ext : (n a b : ℕ) → a ≤ n → b ≤ n → ((k : ℕ) → bit k a ≡ bit k b) → a ≡ b
unfolding bit
bit_ext zero a b p q h = omega arith
bit_ext (suc n) a b p q h =
    omega (arith, h 0, bit_ext n (a / 2) (b / 2) (omega arith) (omega arith) (λ k. h (suc k)))

bit_and_zero : (a : ℕ) → bit_and a 0 ≡ 0
bit_and_zero a =
    bit_ext (bit_and a 0) (bit_and a 0) 0 (le_refl _) (omega arith)
      λ k. omega (arith, bit-bit_and k a 0, bit-zero k)

pub bit_and-pow : (k a : ℕ) → bit_and a (2 ^ k) ≡ bit k a * 2 ^ k
unfolding bit
bit_and-pow zero a = omega (arith, bit_and_halves a 1, bit_and_zero (a / 2))
bit_and-pow (suc k) a =
    let double : 2 ^ suc k ≡ 2 * 2 ^ k = omega (arith, pow-suc 2 k) in
    let half : 2 ^ suc k / 2 ≡ 2 ^ k = omega arith in
    let step = bit_and_halves a (2 ^ suc k) in
    let rest : bit_and (a / 2) (2 ^ suc k / 2) ≡ bit k (a / 2) * 2 ^ k =
      rw half (bit_and-pow k (a / 2)) in
    omega (arith, ap (λ (t : ℕ). bit k (a / 2) * t) double)

-- The complement of a `width`-bit word.
abbrev pub complement : ℕ → ℕ → ℕ
complement width a = 2 ^ width - 1 - a

-- The test `(a & b) != 0` of the sources.
abbrev pub has_bits : ℕ → ℕ → Bool
has_bits a b = not (bit_and a b == 0)

-- Of a single-bit flag the test reads that digit.
pub has_bits-pow : (a k : ℕ) → has_bits a (2 ^ k) ≡ (bit k a == 1)
has_bits-pow a k = grind (arith, bit_and-pow k a, bit-le-one k a, one-le-pow k 2)

-- A `|` of flag words.
abbrev pub any_of : List ℕ → ℕ
any_of [] = 0
any_of (x ∷ xs) = bit_or x (any_of xs)

-- A test of all numbers below a bound, run by evaluation.
unfoldable pub all_below : ℕ → (ℕ → Bool) → Bool
all_below zero test = true
all_below (suc last) test = test last && all_below last test

conjuncts : (a b : Bool) → (a && b) ≡ true → (a ≡ true) × (b ≡ true)
conjuncts true b both = (refl, both)
conjuncts false b both = cc

pub all_below-apply :
    (test : ℕ → Bool) (bound i : ℕ) → i < bound → all_below bound test ≡ true → test i ≡ true
unfolding all_below
all_below-apply test zero i below passed = absurd (omega arith)
all_below-apply test (suc last) i below passed =
    let (here, rest) = conjuncts (test last) (all_below last test) passed in
    elim (eq-or-lt_of_le (le_of_suc-le-suc below)) [
      | inl same ↦ rw same here
      | inr earlier ↦ all_below-apply test last i earlier rest
    ]

-- The same for a test of two numbers.
pub all_below-apply_pair :
    (test : ℕ → ℕ → Bool) (rows columns i j : ℕ)
    → i < rows
    → j < columns
    → all_below rows (λ row. all_below columns (test row)) ≡ true
    → test i j ≡ true
all_below-apply_pair test rows columns i j row column passed =
    all_below-apply (test i) columns j column (all_below-apply _ rows i row passed)

pub bit-div : (n k a : ℕ) → bit k (a / 2 ^ n) ≡ bit (n + k) a
unfolding bit
bit-div zero k a = rw (zero-add) (ap (bit k) (omega arith))
bit-div (suc n) k a =
    let quarter : a / 2 ^ suc n ≡ a / 2 / 2 ^ n =
      rw (pow-suc 2 n, mul_comm (2 ^ n) 2) (sym (div-div-eq-div-mul a 2 (2 ^ n))) in
    rw (quarter, suc-add n k) (bit-div n k (a / 2))

-- A number below `2 ^ n` has no digit from `n` on.
pub bit-eq-zero : (n k a : ℕ) → a < 2 ^ n → n ≤ k → bit k a ≡ 0
unfolding bit
bit-eq-zero zero k a h le = let z : a ≡ 0 = omega arith in rw z (bit-zero k)
bit-eq-zero (suc n) zero a h le = absurd (omega arith)
bit-eq-zero (suc n) (suc k) a h le =
    bit-eq-zero n k (a / 2) (omega (arith, pow-suc 2 n)) (omega arith)

-- A two-bit field is its two digits.
pub bit_and_three : (a : ℕ) → bit_and a 3 ≡ bit 1 a * 2 + bit 0 a
unfolding bit
bit_and_three a = omega (arith, bit_and_halves a 3, bit_and-pow 0 (a / 2))

bit_and-le_fuel : (n a b : ℕ) → b ≤ n → bit_and a b ≤ b
bit_and-le_fuel zero a b h = let z : b ≡ 0 = omega arith in rw z (omega (arith, bit_and_zero a))
bit_and-le_fuel (suc n) a b h =
    omega (arith, bit_and_halves a b, bit_and-le_fuel n (a / 2) (b / 2) (omega arith))

pub bit_and-le : (a b : ℕ) → bit_and a b ≤ b
bit_and-le a b = bit_and-le_fuel b a b (le_refl b)
