-- ===== src/Options.antt =====
-- Command lines as the lab scripts under scripts/lab read them, and their rows of refusals. Times are
-- whole milliseconds, and no number is negative: a test for a negative one never holds and is left
-- out. Values that argparse itself refuses are not given.
pub mod Labs
use unitor_win64_driver.Base.{
  ℕ, Bool, false, ◌||◌, Option, none, some, List, [], ◌∷◌, Text, if◌then◌else◌, equal,
}

-- An option's value: none, a text, a number, or seconds, here in milliseconds
pub data Arg : Type 0 where
  switch : Arg
  text : Text → Arg
  num : ℕ → Arg
  seconds : ℕ → Arg

-- The options of a command line, each with its value
abbrev pub CommandLine : Type 0
CommandLine = List (Text × Arg)

-- What argparse makes of an option: the last value that is given, else the default
abbrev num_value : ℕ → Arg → ℕ
num_value d switch = d
num_value d (text t) = d
num_value d (num n) = n
num_value d (seconds ms) = d

abbrev seconds_value : ℕ → Arg → ℕ
seconds_value d switch = d
seconds_value d (text t) = d
seconds_value d (num n) = d
seconds_value d (seconds ms) = ms

abbrev text_value : Text → Arg → Text
text_value d switch = d
text_value d (text t) = t
text_value d (num n) = d
text_value d (seconds ms) = d

abbrev pub num_of : Text → ℕ → CommandLine → ℕ
num_of flag d [] = d
num_of flag d ((f, a) ∷ rest) = num_of flag (if equal f flag then num_value d a else d) rest

abbrev pub seconds_of : Text → ℕ → CommandLine → ℕ
seconds_of flag d [] = d
seconds_of flag d ((f, a) ∷ rest) =
    seconds_of flag (if equal f flag then seconds_value d a else d) rest

abbrev pub text_of : Text → Text → CommandLine → Text
text_of flag d [] = d
text_of flag d ((f, a) ∷ rest) = text_of flag (if equal f flag then text_value d a else d) rest

abbrev pub has : Text → CommandLine → Bool
has flag [] = false
has flag ((f, a) ∷ rest) = equal f flag || has flag rest

-- A row of `if test: raise SystemExit(message)`: the message of the first test that holds
abbrev pub first_refusal : List (Bool × Text) → Option Text
first_refusal [] = none
first_refusal ((test, message) ∷ rest) =
    let others = first_refusal rest in if test then some message else others
