-- ===== src/Sessions/Long/Plan.antt =====
-- What the long loopback sends: `parse_sizes` and `payload_plan` of
-- scripts/lab/sysex_long_loopback_lib.py. What Python's `int` makes of a text is a parameter.
use unitor_win64_driver.Base.{
  ℕ, ◌≤◌, ◌≡◌, refl, Bool, Option, some, List, [], ◌∷◌, ◌++◌, Text, Bytes, codes, Result, ok, err,
  ltb, ◌==◌, if◌then◌else◌, length, All, decimal, strip, is_blank,
}
use unitor_win64_driver.Sysex.Frame.{FrameError, load_fixture}
use unitor_win64_driver.Sysex.Synthetic.{
  SynthError, build_synthetic_sysex, build_synthetic_sysex_lem,
}

-- What `int(part)` gives: an exception, a negative number, or a number
pub data IntText : Type 0 where
  no_int negative : IntText
  natural : ℕ → IntText

pub data SizeError : Type 0 where
  bad_int size_below_8 : Text → SizeError
  no_sizes : SizeError

-- `DEFAULT_SIZES`
abbrev pub default_sizes : List ℕ
default_sizes = 1024 ∷ 4096 ∷ []

-- `raw.split(",")`
abbrev pub put_front : ℕ → List Text → List Text
put_front c [] = (c ∷ []) ∷ []
put_front c (part ∷ parts) = (c ∷ part) ∷ parts

unfoldable pub split_commas : Text → List Text
split_commas [] = [] ∷ []
split_commas (c ∷ cs) =
    let rest = split_commas cs in if c == b',' then [] ∷ rest else put_front c rest

abbrev pub add_size : Text → IntText → Result SizeError (List ℕ) → Result SizeError (List ℕ)
add_size part no_int rest = err (bad_int part)
add_size part negative rest = err (size_below_8 part)
add_size part (natural value) (err e) = err (if ltb value 8 then size_below_8 part else e)
add_size part (natural value) (ok sizes) =
    if ltb value 8 then err (size_below_8 part) else ok (value ∷ sizes)

abbrev pub not_empty : List ℕ → Result SizeError (List ℕ)
not_empty [] = err no_sizes
not_empty (size ∷ sizes) = ok (size ∷ sizes)

abbrev pub and_not_empty : Result SizeError (List ℕ) → Result SizeError (List ℕ)
and_not_empty (err e) = err e
and_not_empty (ok sizes) = not_empty sizes

module _ (int_of : Text → IntText) where
  unfoldable pub sizes_of : List Text → Result SizeError (List ℕ)
  sizes_of [] = ok []
  sizes_of (part ∷ parts) =
      let rest = sizes_of parts in
      if is_blank part then rest else add_size (strip part) (int_of (strip part)) rest

  unfoldable pub parse_sizes : Text → Result SizeError (List ℕ)
  unfolding sizes_of split_commas
  parse_sizes raw =
      if is_blank raw then ok default_sizes else and_not_empty (sizes_of (split_commas raw))

pub data PlanError : Type 0 where
  bad_size : SynthError → PlanError
  bad_fixture : FrameError → PlanError

abbrev pub Plan : Type 0
Plan = List (Text × Bytes)

abbrev pub add_payload : ℕ → Result SynthError Bytes → Result PlanError Plan → Result PlanError Plan
add_payload size (err e) rest = err (bad_size e)
add_payload size (ok frame) (err e) = err e
add_payload size (ok frame) (ok plan) = ok ((codes "synth_" ++ decimal size, frame) ∷ plan)

unfoldable pub synthetic_plan : List ℕ → Result PlanError Plan
unfolding build_synthetic_sysex
synthetic_plan [] = ok []
synthetic_plan (size ∷ sizes) =
    let rest = synthetic_plan sizes in add_payload size (build_synthetic_sysex size) rest

abbrev pub fixture_payload : Result FrameError Bytes → Result PlanError Plan
fixture_payload (err e) = err (bad_fixture e)
fixture_payload (ok frame) = ok ((codes "fixture_" ++ decimal (length frame), frame) ∷ [])

abbrev pub append_plans : Result PlanError Plan → Result PlanError Plan → Result PlanError Plan
append_plans (err e) more = err e
append_plans (ok plan) (err e) = err e
append_plans (ok plan) (ok more) = ok (plan ++ more)

-- The fixture's part: none with `--skip-fixture`
abbrev pub fixture_plan : Bool → Option Bytes → Result PlanError Plan
fixture_plan skip_fixture fixture =
    if skip_fixture then ok [] else fixture_payload (load_fixture fixture)

unfoldable pub payload_plan : List ℕ → Bool → Option Bytes → Result PlanError Plan
unfolding synthetic_plan load_fixture
payload_plan sizes skip_fixture fixture =
    append_plans (synthetic_plan sizes) (fixture_plan skip_fixture fixture)

-- A payload for each size, of exactly that many bytes, which the fixture check accepts too
abbrev pub Fits : List ℕ → Plan → Type 0
Fits [] [] = Unit
Fits [] (p ∷ plan) = ⊥
Fits (size ∷ sizes) [] = ⊥
Fits (size ∷ sizes) ((name, frame) ∷ plan) =
    ((length frame ≡ size) × (load_fixture (some frame) ≡ ok frame)) × Fits sizes plan

pub synthetic_plan-Fits :
    (sizes : List ℕ)
    → All (λ size. 8 ≤ size) sizes
    → (plan : Plan) × (synthetic_plan sizes ≡ ok plan) × Fits sizes plan
unfolding synthetic_plan
synthetic_plan-Fits [] h = ([], refl, tt)
synthetic_plan-Fits (size ∷ sizes) h =
    let (plan, q, f) = synthetic_plan-Fits sizes h.1 in
    let (frame, b, l, c, t) = (build_synthetic_sysex_lem size).1 h.0 in
    ((codes "synth_" ++ decimal size, frame) ∷ plan, rw (b, q) refl, ((l, t), f))
