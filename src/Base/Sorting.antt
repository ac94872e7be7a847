-- ===== src/Base/Sorting.antt =====
-- Laws of the order on texts and of `sorted`.
use mathlib.Core.Path.{◌≡◌, refl}
use mathlib.Core.Logic.{◌⊎◌, inl, inr}
use mathlib.Core.Bool.{Bool, true}
use mathlib.Core.List.{List, [], ◌∷◌}
use native.Mathlib.Omega.{arith}
use unitor_win64_driver.Base.Tests.{Bool-cases}
use unitor_win64_driver.Base.Lists.{All}
use unitor_win64_driver.Base.Strings.{Text}
use unitor_win64_driver.Base.Order.{text_le, insert_sorted, sorted}

pub text_le_total : (a b : Text) → (text_le a b ≡ true) ⊎ (text_le b a ≡ true)
text_le_total [] b = inl refl
text_le_total (x ∷ xs) [] = inr refl
text_le_total (x ∷ xs) (y ∷ ys) = ground (arith, text_le_total xs ys)

pub text_le_antisymm : (a b : Text) → text_le a b ≡ true → text_le b a ≡ true → a ≡ b
text_le_antisymm [] [] h k = refl
text_le_antisymm [] (y ∷ ys) h k = ground arith
text_le_antisymm (x ∷ xs) [] h k = ground arith
text_le_antisymm (x ∷ xs) (y ∷ ys) h k = ground (arith, text_le_antisymm xs ys)

pub text_le_trans : (a b c : Text) → text_le a b ≡ true → text_le b c ≡ true → text_le a c ≡ true
text_le_trans [] b c h k = refl
text_le_trans (x ∷ xs) [] c h k = ground arith
text_le_trans (x ∷ xs) (y ∷ ys) [] h k = ground arith
text_le_trans (x ∷ xs) (y ∷ ys) (z ∷ zs) h k = ground (arith, text_le_trans xs ys zs)

-- The laws of a total order, given as a Boolean test
pub record IsTotalOrder {ℓ} {A : Type ℓ} (le : A → A → Bool) : Type ℓ where
  pub total : (a b : A) → (le a b ≡ true) ⊎ (le b a ≡ true)
  pub antisymm : (a b : A) → le a b ≡ true → le b a ≡ true → a ≡ b
  pub trans : (a b c : A) → le a b ≡ true → le b c ≡ true → le a c ≡ true

module _ {ℓ κ} {A : Type ℓ} (le : A → A → Bool) (P : A → Type κ) where
  All-insert_sorted : (a : A) (xs : List A) → P a → All P xs → All P (insert_sorted le a xs)
  All-insert_sorted a [] h hs = (h, tt)
  All-insert_sorted a (x ∷ xs) h hs = elim (Bool-cases (le a x)) [
    | inl e ↦ rw e (h, hs)
    | inr e ↦ rw e (hs.0, All-insert_sorted a xs h hs.1)
  ]

  pub All-sorted : (xs : List A) → All P xs → All P (sorted le xs)
  All-sorted [] h = tt
  All-sorted (x ∷ xs) h = All-insert_sorted x (sorted le xs) h.0 (All-sorted xs h.1)

  insert_sorted-All : (a : A) (xs : List A) → All P (insert_sorted le a xs) → P a × All P xs
  insert_sorted-All a [] h = (h.0, tt)
  insert_sorted-All a (x ∷ xs) h = elim (Bool-cases (le a x)) [
    | inl e ↦ rw e at h
    | inr e ↦
        let (hx, rest) = rw e at h in let (ha, hs) = insert_sorted-All a xs rest in (ha, (hx, hs))
  ]

  pub sorted-All : (xs : List A) → All P (sorted le xs) → All P xs
  sorted-All [] h = tt
  sorted-All (x ∷ xs) h =
      let (hx, hs) = insert_sorted-All x (sorted le xs) h in (hx, sorted-All xs hs)

module _ {ℓ} {A : Type ℓ} (le : A → A → Bool) (order : IsTotalOrder le) where
  -- Every element is at most those behind it.
  pub data IsSorted : List A → Type ℓ where
    nil : IsSorted []
    cons : {a : A} {xs : List A} → All (λ x. le a x ≡ true) xs → IsSorted xs → IsSorted (a ∷ xs)

  pub insert_sorted_comm :
      (a b : A) (xs : List A)
      → insert_sorted le a (insert_sorted le b xs) ≡ insert_sorted le b (insert_sorted le a xs)
  insert_sorted_comm a b [] = ground (arith, order.total a b, order.antisymm a b)
  insert_sorted_comm a b (x ∷ xs) = ground (
    arith,
    order.total a b,
    order.antisymm a b,
    order.trans a b x,
    order.trans b a x,
    insert_sorted_comm a b xs,
  )

  All-le_trans :
      {a b : A} (xs : List A)
      → le a b ≡ true
      → All (λ x. le b x ≡ true) xs
      → All (λ x. le a x ≡ true) xs
  All-le_trans [] h k = tt
  All-le_trans {a} {b} (x ∷ xs) h k = (order.trans a b x h k.0, All-le_trans xs h k.1)

  insert_sorted-IsSorted : (a : A) {xs : List A} → IsSorted xs → IsSorted (insert_sorted le a xs)
  insert_sorted-IsSorted a nil = cons tt nil
  insert_sorted-IsSorted a (cons {a = x} {xs} h s) = elim (Bool-cases (le a x)) [
    | inl e ↦ rw e (cons (e, All-le_trans xs e h) (cons h s))
    | inr e ↦
        let back : le x a ≡ true = ground (arith, order.total a x) in
        rw e (
          cons (All-insert_sorted le (λ z. le x z ≡ true) a xs back h) (insert_sorted-IsSorted a s))
  ]

  pub sorted-IsSorted : (xs : List A) → IsSorted (sorted le xs)
  sorted-IsSorted [] = nil
  sorted-IsSorted (x ∷ xs) = insert_sorted-IsSorted x (sorted-IsSorted xs)
