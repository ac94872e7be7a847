-- ===== src/Base/Decimal.antt =====
-- `str(n)`, `f"{n:04d}"` and reading a run of digits back.
use Prim.Native.Nat.{ℕ, zero, suc, ◌+◌, ◌-◌, ◌*◌, ◌/◌, ◌%◌, ◌<◌}
use mathlib.Core.Path.{◌≡◌, refl, ◌∙◌}
use mathlib.Core.Bool.{true, false}
use mathlib.Core.Logic.{inl, inr}
use mathlib.Core.List.{[], ◌∷◌, ◌++◌}
use native.Mathlib.Omega.{arith}
use unitor_win64_driver.Base.Tests.{ltb, if◌then◌else◌, Bool-cases}
use unitor_win64_driver.Base.Lists.{all, equal}
use unitor_win64_driver.Base.Strings.{Text, is_digit}

-- On fuel: `n + 1` rounds are more than the digits of `n`.
unfoldable pub digits_of : ℕ → ℕ → Text
digits_of zero n = []
digits_of (suc fuel) n =
    let rest = digits_of fuel (n / 10) in
    if ltb n 10 then (n + 48) ∷ [] else rest ++ (n % 10 + 48) ∷ []

unfoldable pub decimal : ℕ → Text
unfolding digits_of
decimal n = digits_of (suc n) n

-- The number that a text of digits stands for, after `acc`
unfoldable pub read_digits : ℕ → Text → ℕ
read_digits acc [] = acc
read_digits acc (c ∷ cs) = read_digits (acc * 10 + (c - 48)) cs

read_digits-concat :
    (acc c : ℕ) (s : Text) → read_digits acc (s ++ c ∷ []) ≡ read_digits acc s * 10 + (c - 48)
unfolding read_digits
read_digits-concat acc c [] = refl
read_digits-concat acc c (d ∷ s) = read_digits-concat (acc * 10 + (d - 48)) c s

read_digits-digits_of : (fuel n : ℕ) → n < fuel → read_digits 0 (digits_of fuel n) ≡ n
unfolding digits_of
read_digits-digits_of zero n h = elim h [ ]
read_digits-digits_of (suc fuel) n h = elim (Bool-cases (ltb n 10)) [
  | inl small ↦ rw small (unfold read_digits in omega arith)
  | inr big ↦ rw big (
      read_digits-concat 0 (n % 10 + 48) (digits_of fuel (n / 10))
      ∙ omega (arith, read_digits-digits_of fuel (n / 10) (ground arith)))
]

-- Printing a number and reading its digits gives the number: no digit is lost to the fuel.
pub read_digits-decimal : (n : ℕ) → read_digits 0 (decimal n) ≡ n
unfolding decimal
read_digits-decimal n = read_digits-digits_of (suc n) n (omega arith)

all-append :
    (xs ys : Text)
    → all is_digit xs ≡ true
    → all is_digit ys ≡ true
    → all is_digit (xs ++ ys) ≡ true
all-append [] ys h k = k
all-append (x ∷ xs) ys h k = ground (arith, all-append xs ys)

digits_of-is_digit : (fuel n : ℕ) → all is_digit (digits_of fuel n) ≡ true
unfolding digits_of
digits_of-is_digit zero n = refl
digits_of-is_digit (suc fuel) n = ground (
  arith,
  all-append (digits_of fuel (n / 10)) ((n % 10 + 48) ∷ []),
  digits_of-is_digit fuel (n / 10),
)

-- A number prints as digits.
pub decimal-is_digit : (n : ℕ) → all is_digit (decimal n) ≡ true
unfolding decimal
decimal-is_digit n = digits_of-is_digit (suc n) n

concat-ne-nil : (xs : Text) (c : ℕ) → equal (xs ++ c ∷ []) [] ≡ false
concat-ne-nil [] c = refl
concat-ne-nil (x ∷ xs) c = refl

-- At least one digit is printed.
pub decimal-ne-nil : (n : ℕ) → equal (decimal n) [] ≡ false
unfolding decimal digits_of
decimal-ne-nil n = ground (arith, concat-ne-nil (digits_of n (n / 10)) (n % 10 + 48))
