-- ===== src/Title.antt =====
-- A free chat title: scripts/dev/resolve-bmad-chat-title.py. Texts are code points, and `\d` and
-- `isspace` those of ASCII. Reading Cursor's database is a parameter: what each candidate gives.
pub mod Fresh
use unitor_win64_driver.Base.{
  ℕ, zero, suc, ◌+◌, Bool, true, false, ◌&&◌, ◌||◌, Option, none, some, List, [], ◌∷◌, ◌++◌, Text,
  codes, ◌==◌, if◌then◌else◌, length, drop, starts_with, is_digit, decimal, read_digits, strip, any,
  ◌>>=◌,
}

-- `$`: the end, or the place before a line feed that ends the text
abbrev pub at_end : Text → Bool
at_end [] = true
at_end (c ∷ []) = c == 10
at_end (c ∷ d ∷ cs) = false

-- The longest run of digits in front, and what follows it
unfoldable pub digit_run : Text → Text × Text
digit_run [] = ([], [])
digit_run (c ∷ cs) =
    let rest = digit_run cs in if is_digit c then (c ∷ rest.0, rest.1) else ([], c ∷ cs)

-- `\)$` behind the digits, of which there must be one at least
abbrev pub closed_number : Text → Text → Option ℕ
closed_number [] rest = none
closed_number (d ∷ ds) [] = none
closed_number (d ∷ ds) (c ∷ cs) =
    if c == b')' && at_end cs then some (read_digits 0 (d ∷ ds)) else none

-- The number that the pattern finds behind the base, 0 where the group does not match
unfoldable pub suffix_number : Text → Option ℕ
unfolding digit_run
suffix_number rest =
    if at_end rest
    then some 0
    else if starts_with (codes " (") rest
    then closed_number (digit_run (drop 2 rest)).0 (digit_run (drop 2 rest)).1
    else none

-- `pat.match(name)`
unfoldable pub title_number : Text → Text → Option ℕ
unfolding suffix_number
title_number base name =
    if starts_with base name then suffix_number (drop (length base) name) else none

-- `taken`, a set, as the list of what is added to it
unfoldable pub taken_numbers : Text → List Text → List ℕ
taken_numbers base [] = []
taken_numbers base (name ∷ names) =
    let rest = taken_numbers base names in
    elim (title_number base name) [ none ↦ rest | some n ↦ n ∷ rest ]

abbrev pub is_taken : ℕ → List ℕ → Bool
is_taken n = any (λ m. n == m)

-- `while n in taken: n += 1`, on fuel; `none` means that the fuel ran out.
unfoldable pub first_free : ℕ → List ℕ → ℕ → Option ℕ
first_free zero taken n = none
first_free (suc fuel) taken n =
    let rest = first_free fuel taken (n + 1) in if is_taken n taken then rest else some n

abbrev pub numbered : Text → ℕ → Text
numbered base n = base ++ (b' ' ∷ b'(' ∷ (decimal n ++ b')' ∷ []))

abbrev pub free_title : Text → List ℕ → Option Text
free_title base [] = some base
free_title base (t ∷ ts) =
    first_free (suc (length (t ∷ ts))) (t ∷ ts) 1 >>= λ n. some (numbered base n)

unfoldable pub resolve_title : Text → List Text → Option Text
unfolding first_free taken_numbers
resolve_title base names = free_title base (taken_numbers base names)

-- What one of the candidates for the database gives: no file, an error, or the names in it
pub data Candidate : Type 0 where
  no_file unreadable : Candidate
  names_found : List Text → Candidate

-- The loop of `main`: the names of the first candidate that can be read
unfoldable pub first_names : List Candidate → List Text
first_names [] = []
first_names (no_file ∷ cs) = first_names cs
first_names (unreadable ∷ cs) = first_names cs
first_names (names_found names ∷ cs) = names

-- The exit status and what is printed on the standard output; `argv` is behind the script's name.
abbrev titled : Text → List Candidate → Option (ℕ × Text)
titled [] candidates = some (2, [])
titled (c ∷ cs) candidates = resolve_title (c ∷ cs) (first_names candidates) >>= λ t. some (0, t)

unfoldable pub main : List Text → List Candidate → Option (ℕ × Text)
unfolding resolve_title first_names
main [] candidates = some (2, [])
main (base ∷ []) candidates = titled (strip base) candidates
main (a ∷ b ∷ argv) candidates = some (2, [])
