-- ===== src/Base/Order.antt =====
-- Python's order on texts, and `sort` on a Boolean order.
use mathlib.Core.Bool.{Bool, true, false, ◌&&◌, ◌||◌}
use mathlib.Core.List.{List, [], ◌∷◌}
use unitor_win64_driver.Base.Tests.{ltb, ◌==◌, if◌then◌else◌}
use unitor_win64_driver.Base.Strings.{Text}

-- `a <= b` on texts: by code points, a prefix first
abbrev pub text_le : Text → Text → Bool
text_le [] b = true
text_le (x ∷ xs) [] = false
text_le (x ∷ xs) (y ∷ ys) = ltb x y || (x == y && text_le xs ys)

module _ {ℓ} {A : Type ℓ} (le : A → A → Bool) where
  abbrev pub insert_sorted : A → List A → List A
  insert_sorted a [] = a ∷ []
  insert_sorted a (x ∷ xs) =
      let rest = insert_sorted a xs in if le a x then a ∷ x ∷ xs else x ∷ rest

  -- A stable sort, as `sorted` is: equal elements keep their order.
  abbrev pub sorted : List A → List A
  sorted [] = []
  sorted (x ∷ xs) = insert_sorted x (sorted xs)
