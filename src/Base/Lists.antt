-- ===== src/Base/Lists.antt =====
-- Lists measured and indexed by native numbers, under the library's names, and Python's slices.
use Prim.Native.Nat.{ℕ, zero, suc, ◌+◌}
use mathlib.Core.Bool.{Bool, true, false, ◌&&◌, ◌||◌}
use mathlib.Core.Path.{◌≡◌, refl, ap}
use mathlib.Core.List.{List, [], ◌∷◌, ◌++◌}
use mathlib.Core.Option.{Option, none, some}
use native.Mathlib.Omega.{arith}
use unitor_win64_driver.Base.Tests.{◌==◌, if◌then◌else◌}

module _ {ℓ} {A : Type ℓ} where
  abbrev pub length : List A → ℕ
  length [] = 0
  length (x ∷ xs) = suc (length xs)

  abbrev pub get_elem? : List A → ℕ → Option A
  get_elem? [] i = none
  get_elem? (x ∷ xs) zero = some x
  get_elem? (x ∷ xs) (suc i) = get_elem? xs i

  abbrev pub get_or : List A → ℕ → A → A
  get_or [] i d = d
  get_or (x ∷ xs) zero d = x
  get_or (x ∷ xs) (suc i) d = get_or xs i d

  abbrev pub take : ℕ → List A → List A
  take zero xs = []
  take (suc n) [] = []
  take (suc n) (x ∷ xs) = x ∷ take n xs

  abbrev pub drop : ℕ → List A → List A
  drop zero xs = xs
  drop (suc n) [] = []
  drop (suc n) (x ∷ xs) = drop n xs

  -- `xs[-1]`, with the value for an empty list given
  abbrev pub last_or : A → List A → A
  last_or d [] = d
  last_or d (x ∷ xs) = last_or x xs

  abbrev pub first_or : A → List A → A
  first_or d [] = d
  first_or d (x ∷ xs) = x

  -- `xs[1:]`
  abbrev pub rest_of : List A → List A
  rest_of [] = []
  rest_of (x ∷ xs) = xs

  -- `xs[:-1]`
  abbrev pub but_last : List A → List A
  but_last [] = []
  but_last (x ∷ []) = []
  but_last (x ∷ y ∷ ys) = x ∷ but_last (y ∷ ys)

  pub length-append : (xs ys : List A) → length (xs ++ ys) ≡ length xs + length ys
  length-append [] ys = omega arith
  length-append (x ∷ xs) ys = omega (arith, length-append xs ys)

  pub last_or-concat : (d a : A) (xs : List A) → last_or d (xs ++ a ∷ []) ≡ a
  last_or-concat d a [] = refl
  last_or-concat d a (x ∷ xs) = last_or-concat x a xs

  pub but_last-concat : (a : A) (xs : List A) → but_last (xs ++ a ∷ []) ≡ xs
  but_last-concat a [] = refl
  but_last-concat a (x ∷ []) = refl
  but_last-concat a (x ∷ y ∷ ys) = ap (◌∷◌ x) (but_last-concat a (y ∷ ys))

  pub but_last-append-last :
      (d x : A) (xs : List A) → but_last (x ∷ xs) ++ last_or d (x ∷ xs) ∷ [] ≡ x ∷ xs
  but_last-append-last d x [] = refl
  but_last-append-last d x (y ∷ ys) = ap (◌∷◌ x) (but_last-append-last x y ys)

  -- `any(p(x) for x in xs)` and `all(p(x) for x in xs)`
  abbrev pub any : (A → Bool) → List A → Bool
  any p [] = false
  any p (x ∷ xs) = p x || any p xs

  abbrev pub all : (A → Bool) → List A → Bool
  all p [] = true
  all p (x ∷ xs) = p x && all p xs

  -- `[x for x in xs if p(x)]`
  abbrev pub keep : (A → Bool) → List A → List A
  keep p [] = []
  keep p (x ∷ xs) = if p x then x ∷ keep p xs else keep p xs

abbrev pub All {ℓ κ} : {A : Type ℓ} → (A → Type κ) → List A → Type κ
All P [] = Unit
All P (x ∷ xs) = P x × All P xs

module _ {ℓ κ} {A : Type ℓ} (P : A → Type κ) where
  pub All-append : (xs ys : List A) → All P xs → All P ys → All P (xs ++ ys)
  All-append [] ys hx hy = hy
  All-append (x ∷ xs) ys hx hy = (hx.0, All-append xs ys hx.1 hy)

  pub All-concat : (xs : List A) (a : A) → All P xs → P a → All P (xs ++ a ∷ [])
  All-concat xs a hx ha = All-append xs (a ∷ []) hx (ha, tt)

-- `data == other` on byte strings and texts.
abbrev pub equal : List ℕ → List ℕ → Bool
equal [] [] = true
equal (x ∷ xs) (y ∷ ys) = x == y && equal xs ys
equal _ _ = false

pub equal→eq : (xs ys : List ℕ) → equal xs ys ≡ true → xs ≡ ys
equal→eq [] [] h = refl
equal→eq (x ∷ xs) (y ∷ ys) h = ground (arith, equal→eq xs ys)
equal→eq [] (y ∷ ys) h = ground arith
equal→eq (x ∷ xs) [] h = ground arith

pub equal_refl : (xs : List ℕ) → equal xs xs ≡ true
equal_refl [] = refl
equal_refl (x ∷ xs) = ground (arith, equal_refl xs)

-- `data.startswith(prefix)`: the prefix comes first
abbrev pub starts_with : List ℕ → List ℕ → Bool
starts_with [] data' = true
starts_with (p ∷ ps) [] = false
starts_with (p ∷ ps) (x ∷ xs) = p == x && starts_with ps xs

pub starts_with_split : (p xs : List ℕ) → starts_with p xs ≡ true → xs ≡ p ++ drop (length p) xs
starts_with_split [] xs h = refl
starts_with_split (p ∷ ps) [] h = ground arith
starts_with_split (p ∷ ps) (x ∷ xs) h = ground (arith, starts_with_split ps xs)

pub starts_with-append : (p xs : List ℕ) → starts_with p (p ++ xs) ≡ true
starts_with-append [] xs = refl
starts_with-append (p ∷ ps) xs = ground (arith, starts_with-append ps xs)

-- `needle in text`
abbrev pub contains : List ℕ → List ℕ → Bool
contains needle [] = starts_with needle []
contains needle (x ∷ xs) = starts_with needle (x ∷ xs) || contains needle xs
