-- ===== src/Title/Fresh.antt =====
-- The title that is found: there is one, and it is free.
use unitor_win64_driver.Base.{
  ℕ, zero, suc, ◌+◌, ◌≤◌, ◌<◌, ◌≡◌, refl, ◌∙◌, ap, true, false, inl, inr, Bool-cases, Option, some,
  List, [], ◌∷◌, ◌++◌, append-nil, arith, Text, equal, equal→eq, if◌then◌else◌, ◌==◌, length,
  starts_with-append, all, is_digit, decimal, read_digits, read_digits-decimal, decimal-is_digit,
  decimal-ne-nil, any, leb, ==_iff,
}
use unitor_win64_driver.Ports.Rank.{drop-length}
use unitor_win64_driver.Title.{
  digit_run, closed_number, suffix_number, title_number, taken_numbers, is_taken, first_free,
  numbered, resolve_title, free_title,
}

-- How many of the numbers are `n` or more
abbrev from : ℕ → List ℕ → ℕ
from n [] = 0
from n (t ∷ ts) = if leb n t then suc (from n ts) else from n ts

from-le-length : (n : ℕ) (ts : List ℕ) → from n ts ≤ length ts
from-le-length n [] = omega arith
from-le-length n (t ∷ ts) = ground (arith, from-le-length n ts)

from-suc-le : (n : ℕ) (ts : List ℕ) → from (n + 1) ts ≤ from n ts
from-suc-le n [] = omega arith
from-suc-le n (t ∷ ts) = ground (arith, from-suc-le n ts)

from-suc-lt : (n : ℕ) (ts : List ℕ) → is_taken n ts ≡ true → from (n + 1) ts < from n ts
from-suc-lt n [] h = ground arith
from-suc-lt n (t ∷ ts) h = ground (arith, from-suc-lt n ts, from-suc-le n ts)

-- The loop ends at the first number from `start` on that is not taken.
pub record IsFirstFree (ts : List ℕ) (start n : ℕ) : Type 0 where
  pub reached : start ≤ n
  pub is_free : is_taken n ts ≡ false
  pub below_taken : (m : ℕ) → start ≤ m → m < n → is_taken m ts ≡ true

first_free-IsFirstFree :
    (fuel : ℕ) (ts : List ℕ) (start : ℕ)
    → from start ts < fuel
    → (n : ℕ) × (first_free fuel ts start ≡ some n) × IsFirstFree ts start n
unfolding first_free
first_free-IsFirstFree zero ts start h = absurd (omega arith)
first_free-IsFirstFree (suc fuel) ts start h = elim (Bool-cases (is_taken start ts)) [
  | inr free ↦ (
    start,
    rw free,
    record { reached = omega arith; is_free = free; below_taken = λ m a b. absurd (omega arith) },
  )
  | inl taken ↦
      let (n, e, f) =
        first_free-IsFirstFree fuel ts (start + 1) (omega (arith, from-suc-lt start ts taken)) in
      (
        n,
        rw taken e,
        record {
          reached = omega (arith, f.reached);
          is_free = f.is_free;
          below_taken = λ m a b. elim (Bool-cases (start == m)) [
            | inl same ↦ rw (← (==_iff start m).0 same) taken
            | inr other ↦ f.below_taken m (ground arith) b
          ];
        },
      )
]

digit_run-digits :
    (ds : Text) → all is_digit ds ≡ true → digit_run (ds ++ b')' ∷ []) ≡ (ds, b')' ∷ [])
unfolding digit_run
digit_run-digits [] h = refl
digit_run-digits (d ∷ ds) h = ground (arith, digit_run-digits ds)

closed_number-digits :
    (ds : Text) → equal ds [] ≡ false → closed_number ds (b')' ∷ []) ≡ some (read_digits 0 ds)
closed_number-digits [] h = ground arith
closed_number-digits (d ∷ ds) h = refl

suffix_number-decimal : (n : ℕ) → suffix_number (b' ' ∷ b'(' ∷ (decimal n ++ b')' ∷ [])) ≡ some n
unfolding suffix_number
suffix_number-decimal n =
    let run = digit_run-digits (decimal n) (decimal-is_digit n) in
    rw (run, closed_number)
      (closed_number-digits (decimal n) (decimal-ne-nil n) ∙ ap some (read_digits-decimal n))

title_number-append : (base rest : Text) → title_number base (base ++ rest) ≡ suffix_number rest
unfolding title_number
title_number-append base rest = rw (starts_with-append base rest, drop-length base rest)

title_number-numbered : (base : Text) (n : ℕ) → title_number base (numbered base n) ≡ some n
title_number-numbered base n = title_number-append base _ ∙ suffix_number-decimal n

title_number-base : (base : Text) → title_number base base ≡ some 0
unfolding suffix_number
title_number-base base =
    rw (ap (title_number base) (append-nil base)) at (title_number-append base [])

-- A listed name that matches has its number taken.
taken_numbers-listed :
    (base t : Text) (n : ℕ) (names : List Text)
    → title_number base t ≡ some n
    → any (equal t) names ≡ true
    → is_taken n (taken_numbers base names) ≡ true
unfolding taken_numbers
taken_numbers-listed base t n [] h k = ground arith
taken_numbers-listed base t n (name ∷ names) h k = elim (Bool-cases (equal t name)) [
  | inl same ↦
      let m : title_number base name ≡ some n = rw (← equal→eq t name same) h in
      rw (m, taken_numbers) (ground arith)
  | inr other ↦ ground (arith, taken_numbers-listed base t n names h)
]

-- Why no better title is free: the base has no listed name that matches, or every smaller number
-- from 1 on is taken.
pub data IsLeast (base : Text) (names : List Text) (t : Text) : Type 0 where
  plain : t ≡ base → taken_numbers base names ≡ [] → IsLeast base names t
  with_number :
      (n : ℕ)
      → t ≡ numbered base n
      → 1 ≤ n
      → ((m : ℕ) → 1 ≤ m → m < n → is_taken m (taken_numbers base names) ≡ true)
      → IsLeast base names t

abbrev IsResolved : Text → List Text → Option Text → Type 0
IsResolved base names o =
    (t : Text) × (o ≡ some t) × (any (equal t) names ≡ false) × IsLeast base names t

not_listed :
    (base t : Text) (n : ℕ) (names : List Text)
    → title_number base t ≡ some n
    → is_taken n (taken_numbers base names) ≡ false
    → any (equal t) names ≡ false
not_listed base t n names h free = elim (Bool-cases (any (equal t) names)) [
  | inr absent ↦ absent
  | inl listed ↦ cc (taken_numbers-listed base t n names h listed)
]

free_title-IsResolved :
    (base : Text) (names : List Text) (taken : List ℕ)
    → taken_numbers base names ≡ taken
    → IsResolved base names (free_title base taken)
free_title-IsResolved base names [] e =
    (base, refl, not_listed base base 0 names (title_number-base base) (rw e), plain refl e)
free_title-IsResolved base names (k ∷ ks) e =
    let ts = k ∷ ks in
    let (n, found, f) =
      first_free-IsFirstFree (suc (length ts)) ts 1 (omega (arith, from-le-length 1 ts)) in
    (
      numbered base n,
      rw found refl,
      not_listed base (numbered base n) n names (title_number-numbered base n) (rw e f.is_free),
      with_number n refl f.reached (λ m a b. rw e (f.below_taken m a b)),
    )

-- A title is always found. It is none of the listed names, and it is the base if no listed name
-- matches the pattern, else the base with the least number from 1 on that no listed name has.
pub resolve_title-IsLeast :
    (base : Text) (names : List Text)
    → (t : Text) × (resolve_title base names ≡ some t)
      × (any (equal t) names ≡ false)
      × IsLeast base names t
unfolding resolve_title
resolve_title-IsLeast base names = free_title-IsResolved base names (taken_numbers base names) refl
