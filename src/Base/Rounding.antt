-- ===== src/Base/Rounding.antt =====
-- Bounds on the rounded products.
use Prim.Native.Nat.{ℕ, zero, suc, ◌+◌, ◌-◌, ◌*◌, ◌/◌, ◌%◌, ◌^◌, ◌≤◌, ◌<◌}
use mathlib.Core.Path.{◌≡◌, refl, ap, ◌∙◌}
use mathlib.Core.Logic.{◌⊎◌, inl, inr}
use mathlib.Core.Bool.{false}
use native.Mathlib.Omega.{arith}
use native.Mathlib.Nat.{pow-zero, two-pow-succ, mul-add, mod-add-div', add-zero, add-suc}
use native.Mathlib.Numerals.{add-one}
use unitor_win64_driver.Base.Tests.{ltb, ◌==◌, Bool-cases}
use unitor_win64_driver.Base.Binary64.{bit_length, round_even, int_times, int_times_0_98}

bit_length-zero : (fuel : ℕ) → bit_length fuel 0 ≡ 0
unfolding bit_length
bit_length-zero zero = refl
bit_length-zero (suc fuel) = refl

-- No more bits are counted than the number has.
pow-bit_length : (fuel n : ℕ) → 0 < n → 2 ^ bit_length fuel n ≤ 2 * n
unfolding bit_length
pow-bit_length zero n h = omega arith
pow-bit_length (suc fuel) n h = elim (Bool-cases (n / 2 == 0)) [
  | inl e ↦
      let half : n / 2 ≡ 0 = ground arith in
      let none_left : bit_length fuel (n / 2) ≡ 0 = rw half (bit_length-zero fuel) in
      let pos : (n == 0) ≡ false = ground arith in rw (pos, none_left) (omega arith)
  | inr e ↦
      let pos : (n == 0) ≡ false = ground arith in
      rw (pos, add-one, two-pow-succ) (omega (arith, pow-bit_length fuel (n / 2) (ground arith)))
]

pow-add : (a b : ℕ) → 2 ^ (a + b) ≡ 2 ^ a * 2 ^ b
pow-add a zero = rw (add-zero, pow-zero) (omega arith)
pow-add a (suc b) =
    rw (add-suc, two-pow-succ (a + b), two-pow-succ b)
      (omega (arith, pow-add a b, mul-add (2 ^ a) (2 ^ b) (2 ^ b)))

even_or_odd : (q : ℕ) → (q % 2 ≡ 0) ⊎ (q % 2 ≡ 1)
even_or_odd q = omega arith

-- The rounded significand is off by half a unit at most.
round_even-bound :
    (unit q r exact : ℕ)
    → r + q * unit ≡ exact
    → 2 * (round_even unit q r * unit) ≤ 2 * exact + unit
round_even-bound unit q r exact e = elim (Bool-cases (ltb (2 * r) unit)) [
  | inl low ↦ rw low (omega arith)
  | inr not_low ↦ elim (Bool-cases (ltb unit (2 * r))) [
    | inl high ↦ let up : unit < 2 * r = ground arith in rw (not_low, high) (omega arith)
    | inr tie ↦
        let half : 2 * r ≡ unit = ground arith in
        rw (not_low, tie)
          (elim (even_or_odd q) [
            | inl even ↦ rw even (omega arith)
            | inr odd ↦ rw odd (omega arith)
          ])
  ]
]

-- The unit is twice the factor at most, or one.
unit-bound :
    (bits n : ℕ) → 2 ^ bits ≤ 2 * (n * 8827055269646172) → 53 ≤ bits → 2 ^ (bits - 53) ≤ 2 * n
unit-bound bits n h le =
    let split : bits ≡ bits - 53 + 53 = omega arith in
    let whole : 2 ^ bits ≡ 2 ^ (bits - 53) * 2 ^ 53 =
      ap (λ (b : ℕ). 2 ^ b) split ∙ pow-add (bits - 53) 53 in
    omega (arith, whole)

rounded-le :
    (n unit : ℕ)
    → unit ≤ 2 * n + 1
    → round_even unit (n * 8827055269646172 / unit) (n * 8827055269646172 % unit) * unit / 2 ^ 53
      ≤ n
rounded-le n unit h =
    let exact = n * 8827055269646172 in
    omega
      (arith, round_even-bound unit (exact / unit) (exact % unit) exact (mod-add-div' exact unit))

small_unit : (bits : ℕ) → bits < 53 → 2 ^ (bits - 53) ≡ 1
small_unit bits h = let e : bits - 53 ≡ 0 = omega arith in rw e

-- The rounded product with 0.98 is at most the factor.
pub int_times_0_98-le : (n : ℕ) → int_times_0_98 n ≤ n
unfolding int_times_0_98 int_times
int_times_0_98-le zero = rw (bit_length-zero 128) (omega arith)
int_times_0_98-le (suc n) =
    let exact = suc n * 8827055269646172 in
    let bits = bit_length 128 exact in
    let size = pow-bit_length 128 exact (omega arith) in
    elim (Bool-cases (ltb bits 53)) [
      | inl small ↦
          rounded-le (suc n) (2 ^ (bits - 53)) (omega (arith, small_unit bits (ground arith)))
      | inr big ↦
          rounded-le (suc n) (2 ^ (bits - 53))
            (omega (arith, unit-bound bits (suc n) size (ground arith)))
    ]
