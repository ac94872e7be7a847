-- ===== src/Ports.antt =====
-- Port names: `normalize_port_label`, `port_match_rank`, `select_port` and `find_port` of
-- scripts/lab/lab_midi_common.py. Texts are code points, and `lower` and `isdigit` those of ASCII.
pub mod Rank
pub mod Select
use unitor_win64_driver.Base.{
  ℕ, Bool, true, false, ◌&&◌, ◌||◌, not, Option, none, some, List, [], ◌∷◌, Text, Result, ok, err,
  ltb, ◌==◌, if◌then◌else◌, length, drop, all, equal, starts_with, lower, is_digit, text_le, sorted,
}

-- `s.isdigit()`: not empty, and digits only
abbrev pub is_number : Text → Bool
is_number [] = false
is_number (c ∷ cs) = all is_digit (c ∷ cs)

-- `s.replace(" ", "")`
abbrev pub without_spaces : Text → Text
without_spaces [] = []
without_spaces (c ∷ cs) = let rest = without_spaces cs in if c == b' ' then rest else c ∷ rest

-- `s.rsplit(" ", 1)`: the two parts around the last space, or `none` for a text with no space
unfoldable pub rsplit_space : Text → Option (Text × Text)
rsplit_space [] = none
rsplit_space (c ∷ cs) = elim (rsplit_space cs) [
  | some (a, b) ↦ some (c ∷ a, b)
  | none ↦ if c == b' ' then some ([], cs) else none
]

unfoldable pub normalize_port_label : Text → Text
normalize_port_label name = elim (rsplit_space name) [
  | none ↦ name
  | some (label, index) ↦ if is_number index then label else name
]

-- The rank of what stands behind the label in the name
abbrev pub rest_rank : Text → Option ℕ
rest_rank [] = some 0
rest_rank (c ∷ cs) = if c == b' ' && is_number (without_spaces cs) then some 2 else none

unfoldable pub port_match_rank : Text → Text → Option ℕ
port_match_rank name needle =
    if equal name needle
    then some 0
    else if equal (normalize_port_label name) needle
    then some 1
    else if not (starts_with (lower needle) (lower name))
    then none
    else rest_rank (drop (length needle) name)

pub data PortError : Type 0 where
  no_match : List Text → PortError
  ambiguous : List Text → PortError

abbrev pub Ranked : Type 0
Ranked = ℕ × Text

unfoldable pub rank_names : Text → List Text → List Ranked
rank_names needle [] = []
rank_names needle (name ∷ names) =
    let rest = rank_names needle names in
    elim (port_match_rank name needle) [ none ↦ rest | some rank ↦ (rank, name) ∷ rest ]

-- The sort key `(item[0], item[1])`
abbrev pub key_le : Ranked → Ranked → Bool
key_le (r, a) (s, b) = ltb r s || (r == s && text_le a b)

-- The names of the entries with this rank
unfoldable pub names_at : ℕ → List Ranked → List Text
names_at best_rank [] = []
names_at best_rank ((rank, name) ∷ ranked) =
    let rest = names_at best_rank ranked in if rank == best_rank then name ∷ rest else rest

abbrev pub only : List Text → Result PortError Text
only [] = err (ambiguous [])
only (name ∷ []) = ok name
only (a ∷ b ∷ names) = err (ambiguous (a ∷ b ∷ names))

-- From the sorted entries on
abbrev pub pick : List Text → List Ranked → Result PortError Text
pick names [] = err (no_match names)
pick names ((best_rank, name) ∷ ranked) = only (names_at best_rank ((best_rank, name) ∷ ranked))

unfoldable pub select_port : List Text → Text → Result PortError Text
unfolding names_at rank_names
select_port names needle = pick names (sorted key_le (rank_names needle names))

unfoldable pub find_port : List Text → Text → Option Text
unfolding select_port
find_port names needle = elim (select_port names needle) [ ok name ↦ some name | err e ↦ none ]
