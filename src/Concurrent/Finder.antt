-- ===== src/Concurrent/Finder.antt =====
-- The two copies of `find_port` agree.
use unitor_win64_driver.Base.{◌≡◌, refl, List, [], ◌∷◌, arith, Text, sorted}
use unitor_win64_driver.Ports
use unitor_win64_driver.Ports.{Ranked, PortError, rank_names, key_le, names_at, only, pick}
use unitor_win64_driver.Base.{Option, none, some, Result, ok, err}
use unitor_win64_driver.Concurrent
use unitor_win64_driver.Concurrent.{only_name, best_of}

found : Result PortError Text → Option Text
found (ok name) = some name
found (err e) = none

only_name-only : (names : List Text) → only_name names ≡ found (only names)
unfolding found
only_name-only [] = refl
only_name-only (name ∷ []) = refl
only_name-only (a ∷ b ∷ names) = refl

best_of-pick :
    (names : List Text) (ranked : List Ranked) → best_of ranked ≡ found (pick names ranked)
unfolding found
best_of-pick names [] = refl
best_of-pick names ((rank, name) ∷ ranked) = only_name-only (names_at rank ((rank, name) ∷ ranked))

-- The stress script's `_find_port` finds what the shared `find_port` finds.
pub find_port_lem :
    (names : List Text) (needle : Text)
    → Concurrent.find_port names needle ≡ Ports.find_port names needle
unfolding Concurrent.find_port Ports.find_port found
find_port_lem names needle =
    ground (arith, best_of-pick names (sorted key_le (rank_names needle names)))
