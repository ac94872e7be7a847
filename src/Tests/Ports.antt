-- ===== src/Tests/Ports.antt =====
-- Port theorems of scripts/lab/lab_midi_common.py at the names of a Unitor's ports.
use mathlib.Core.List.{Perm}
use mathlib.Core.List.Perm.{swap}
use unitor_win64_driver.Base.{
  ℕ, ◌≡◌, refl, ◌↔◌, List, [], ◌∷◌, some, Text, codes, ok, keep, lower, to_lower,
}
use unitor_win64_driver.Ports.{
  rsplit_space, normalize_port_label, port_match_rank, select_port, find_port,
}
use unitor_win64_driver.Ports.Rank.{IsIndexed, port_match_rank_iff}
use unitor_win64_driver.Ports.Select.{at_most, find_port-Perm, select_port-best}

abbrev needle : Text
needle = codes "MT4 Out 1"

abbrev names : List Text
names = codes "MT4 Out 10" ∷ codes "MT4 Out 1 2" ∷ []

select_port-names : select_port names needle ≡ ok (codes "MT4 Out 1 2")
unfolding select_port port_match_rank normalize_port_label rsplit_space to_lower
select_port-names = refl

select_port-best_example :
    (best : ℕ) × (keep (at_most best needle) names ≡ codes "MT4 Out 1 2" ∷ [])
select_port-best_example = select_port-best names needle select_port-names

port_match_rank_iff_example :
    ((port_match_rank (codes "MT4 Out 1 2") needle ≡ some 0)
      ↔ (lower (codes "MT4 Out 1 2") ≡ lower needle))
    × ((port_match_rank (codes "MT4 Out 1 2") needle ≡ some 1)
        ↔ IsIndexed needle (codes "MT4 Out 1 2"))
port_match_rank_iff_example = port_match_rank_iff (codes "MT4 Out 1 2") needle

swapped : Perm (codes "MT4 Out 1 2" ∷ codes "MT4 Out 10" ∷ []) names
swapped = swap (codes "MT4 Out 10") (codes "MT4 Out 1 2") []

find_port-Perm_example :
    find_port (codes "MT4 Out 1 2" ∷ codes "MT4 Out 10" ∷ []) needle ≡ find_port names needle
find_port-Perm_example =
    find_port-Perm needle (codes "MT4 Out 1 2" ∷ codes "MT4 Out 10" ∷ []) names swapped
