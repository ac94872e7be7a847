-- ===== src/Bridge/Modes.antt =====
-- The reader of scripts/lab/midi-concurrent-in-stress.py on the same text.
use unitor_win64_driver.Base.{
  ◌≡◌, refl, ap, ◌∙◌, false, some, List, [], ◌∷◌, ◌++◌, append-nil, Text, codes, is_blank, All,
}
use unitor_win64_driver.Bridge.Listing.{
  put, Mode, no_mode, out_mode, in_mode, mode_lines, stress_port_names, listing,
}
use unitor_win64_driver.Bridge.Fresh.{IsPortName, Differs, name_lines, listed, splitlines-listing}

mode_lines-names :
    (mode : Mode) (n : Text) (lines : List Text)
    → Differs (codes "OUT") n
    → Differs (codes "IN") n
    → is_blank n ≡ false
    → mode_lines mode (n ∷ lines) ≡ put mode n (mode_lines mode lines)
unfolding mode_lines
mode_lines-names mode n lines o i b = rw o (rw i (rw b refl))

-- A name that is no mark of the listing
abbrev pub IsUnmarked : Text → Type 0
IsUnmarked name = Differs (codes "OUT") name × Differs (codes "IN") name

mode_lines-inns :
    (ns : List Text)
    → All IsPortName ns
    → All IsUnmarked ns
    → mode_lines in_mode (name_lines ns) ≡ ([], ns)
unfolding mode_lines
mode_lines-inns [] h u = refl
mode_lines-inns (n ∷ []) h u = mode_lines-names in_mode n [] u.0.0 u.0.1 h.0.not_blank
mode_lines-inns (n ∷ m ∷ ns) h u =
    mode_lines-names in_mode n (m ∷ ns) u.0.0 u.0.1 h.0.not_blank
    ∙ ap (put in_mode n) (mode_lines-inns (m ∷ ns) h.1 u.1)

mode_lines-outs :
    (ns lines : List Text)
    → All IsPortName ns
    → All IsUnmarked ns
    → mode_lines out_mode (ns ++ codes "IN" ∷ lines)
      ≡ (ns ++ (mode_lines in_mode lines).0, (mode_lines in_mode lines).1)
unfolding mode_lines
mode_lines-outs [] lines h u = refl
mode_lines-outs (n ∷ ns) lines h u =
    mode_lines-names out_mode n (ns ++ codes "IN" ∷ lines) u.0.0 u.0.1 h.0.not_blank
    ∙ ap (put out_mode n) (mode_lines-outs ns lines h.1 u.1)

mode_lines-name_lines :
    (ns lines : List Text)
    → mode_lines out_mode (name_lines ns ++ lines) ≡ mode_lines out_mode (ns ++ lines)
unfolding mode_lines
mode_lines-name_lines [] lines = refl
mode_lines-name_lines (n ∷ ns) lines = refl

mode_lines-listed :
    (outs inns : List Text)
    → All IsPortName outs
    → All IsPortName inns
    → All IsUnmarked outs
    → All IsUnmarked inns
    → mode_lines no_mode (listed outs inns) ≡ (outs, inns)
unfolding mode_lines
mode_lines-listed outs inns h k u v =
    mode_lines-name_lines outs (codes "IN" ∷ name_lines inns)
    ∙ (mode_lines-outs outs (name_lines inns) h u
        ∙ (ap (λ (r : List Text × List Text). (outs ++ r.0, r.1)) (mode_lines-inns inns k v)
            ∙ ap (λ (o : List Text). (o, inns)) (append-nil outs)))

-- The stress script's reader finds the same names, if none is called `OUT` or `IN`.
pub stress_port_names-listing :
    (outs inns : List Text)
    → All IsPortName outs
    → All IsPortName inns
    → All IsUnmarked outs
    → All IsUnmarked inns
    → stress_port_names 0 (listing outs inns) ≡ some (outs, inns)
unfolding stress_port_names
stress_port_names-listing outs inns h k u v =
    ap (λ (ls : List Text). some (mode_lines no_mode ls)) (splitlines-listing outs inns h k)
    ∙ ap some (mode_lines-listed outs inns h k u v)
