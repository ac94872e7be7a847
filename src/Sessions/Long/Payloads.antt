-- ===== src/Sessions/Long/Payloads.antt =====
-- The sizes that are accepted are sizes that can be built.
use unitor_win64_driver.Base.{
  ◌≤◌, ◌≡◌, ◌≢◌, refl, subst, Bool, Bool-cases, inl, inr, Option, List, [], ◌∷◌, ◌++◌, arith, Text,
  Bytes, Result, ok, err, ltb, All, strip, is_blank, ℕ,
}
use unitor_win64_driver.Sessions.Long.Plan.{
  IntText, no_int, negative, natural, SizeError, split_commas, add_size, and_not_empty, sizes_of,
  parse_sizes, Plan, fixture_plan, payload_plan, Fits, synthetic_plan-Fits,
}

abbrev AreSizes : List ℕ → Type 0
AreSizes sizes = All (λ size. 8 ≤ size) sizes

abbrev IfSizes : Result SizeError (List ℕ) → Type 0
IfSizes (err e) = Unit
IfSizes (ok sizes) = AreSizes sizes

abbrev IfSome : Result SizeError (List ℕ) → Type 0
IfSome (err e) = Unit
IfSome (ok sizes) = AreSizes sizes × (sizes ≢ [])

add_size-IfSizes :
    (part : Text) (i : IntText) (rest : Result SizeError (List ℕ))
    → IfSizes rest
    → IfSizes (add_size part i rest)
add_size-IfSizes part no_int rest h = tt
add_size-IfSizes part negative rest h = tt
add_size-IfSizes part (natural value) (err e) h = tt
add_size-IfSizes part (natural value) (ok more) h = elim (Bool-cases (ltb value 8)) [
  | inl t ↦ rw t tt
  | inr f ↦ rw f (ground (arith, f), h)
]

and_not_empty-IfSome : (r : Result SizeError (List ℕ)) → IfSizes r → IfSome (and_not_empty r)
and_not_empty-IfSome (err e) h = tt
and_not_empty-IfSome (ok []) h = tt
and_not_empty-IfSome (ok (size ∷ sizes)) h = (h, λ q. cc)

module _ (int_of : Text → IntText) where
  sizes_of-IfSizes : (parts : List Text) → IfSizes (sizes_of int_of parts)
  unfolding sizes_of
  sizes_of-IfSizes [] = tt
  sizes_of-IfSizes (part ∷ parts) = elim (Bool-cases (is_blank part)) [
    | inl t ↦ rw t (sizes_of-IfSizes parts)
    | inr f ↦ rw f (
        add_size-IfSizes (strip part) (int_of (strip part)) (sizes_of int_of parts)
          (sizes_of-IfSizes parts))
  ]

  parse_sizes-IfSome : (raw : Text) → IfSome (parse_sizes int_of raw)
  unfolding parse_sizes
  parse_sizes-IfSome raw = elim (Bool-cases (is_blank raw)) [
    | inl t ↦ rw t ((omega arith, (omega arith, tt)), λ q. cc)
    | inr f ↦ rw f (
        and_not_empty-IfSome (sizes_of int_of (split_commas raw))
          (sizes_of-IfSizes (split_commas raw)))
  ]

  -- If a text of sizes is accepted and the fixture is skipped or passes its check, the plan is made:
  -- behind a payload of exactly the given length for each of the sizes, of which there is one at
  -- least, comes the fixture. Each synthetic payload passes the check of a fixture too.
  pub payload_plan-Fits :
      (raw : Text) (sizes : List ℕ) (skip_fixture : Bool) (fixture : Option Bytes) (more : Plan)
      → parse_sizes int_of raw ≡ ok sizes
      → fixture_plan skip_fixture fixture ≡ ok more
      → (sizes ≢ [])
        × (plan : Plan) × (payload_plan sizes skip_fixture fixture ≡ ok (plan ++ more))
        × Fits sizes plan
  unfolding payload_plan
  payload_plan-Fits raw sizes skip_fixture fixture more q f =
      let (h, some_) = subst IfSome q (parse_sizes-IfSome raw) in
      let (plan, e, fits) = synthetic_plan-Fits sizes h in (some_, plan, rw (e, f) refl, fits)
