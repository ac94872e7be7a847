-- ===== src/Bridge/Fresh.antt =====
-- What the child prints is read back, by both readers.
use unitor_win64_driver.Base.{
  suc, ◌+◌, ◌-◌, ◌≡◌, refl, ap, ap₂, ◌∙◌, false, none, some, List, [], ◌∷◌, ◌++◌, append_assoc,
  append-nil, arith, Text, codes, ok, equal, equal_refl, is_blank, take, drop, length, All,
}
use unitor_win64_driver.Quality.Lines.{is_line_break, lines_from, splitlines}
use unitor_win64_driver.Release.Lines.{lines_from-line}
use unitor_win64_driver.Bridge.Listing.{
  returned, MidiEnumResult, names_of, index_of, not_blank, between, enumerate_midi_ports,
  fresh_midi_port_names, printed_names, listing,
}

-- A port's name has a character that is no space, and no line break.
pub record IsPortName (name : Text) : Type 0 where
  pub not_blank : is_blank name ≡ false
  pub unbroken : All (λ c. is_line_break c ≡ false) name

abbrev pub Differs : Text → Text → Type 0
Differs mark name = equal name mark ≡ false

-- The lines that the names make, one empty line where there are none
abbrev pub name_lines : List Text → List Text
name_lines [] = [] ∷ []
name_lines (n ∷ ns) = n ∷ ns

lines_from-printed_names :
    (ns : List Text) (rest : Text)
    → All IsPortName ns
    → lines_from false [] (printed_names ns ++ rest) ≡ name_lines ns ++ lines_from false [] rest
unfolding printed_names
lines_from-printed_names [] rest h = lines_from-line [] [] rest tt
lines_from-printed_names (n ∷ []) rest h =
    rw (append_assoc n (10 ∷ []) rest) (lines_from-line [] n rest h.0.unbroken)
lines_from-printed_names (n ∷ m ∷ ns) rest h =
    rw (append_assoc n (10 ∷ printed_names (m ∷ ns)) rest) (
      lines_from-line [] n (printed_names (m ∷ ns) ++ rest) h.0.unbroken
      ∙ ap (◌∷◌ n) (lines_from-printed_names (m ∷ ns) rest h.1))

abbrev pub listed : List Text → List Text → List Text
listed outs inns = codes "OUT" ∷ (name_lines outs ++ codes "IN" ∷ name_lines inns)

pub splitlines-listing :
    (outs inns : List Text)
    → All IsPortName outs
    → All IsPortName inns
    → splitlines (listing outs inns) ≡ listed outs inns
unfolding splitlines listing is_line_break
splitlines-listing outs inns h k =
    lines_from-line [] (codes "OUT")
      (printed_names outs ++ (codes "IN" ++ (10 ∷ printed_names inns))) (refl, (refl, (refl, tt)))
    ∙ ap (◌∷◌ (codes "OUT")) (
        lines_from-printed_names outs (codes "IN" ++ (10 ∷ printed_names inns)) h
        ∙ ap (λ t. name_lines outs ++ t)
            (lines_from-line [] (codes "IN") (printed_names inns) (refl, (refl, tt))
              ∙ ap (◌∷◌ (codes "IN")) (simp append-nil at (lines_from-printed_names inns [] k))))

index_of-append :
    (mark : Text) (xs rest : List Text)
    → All (Differs mark) xs
    → index_of mark (xs ++ mark ∷ rest) ≡ some (length xs)
index_of-append mark [] rest h = rw (equal_refl mark) refl
index_of-append mark (x ∷ xs) rest h = rw (h.0, index_of-append mark xs rest h.1) refl

take-append : (xs ys : List Text) → take (length xs) (xs ++ ys) ≡ xs
take-append [] ys = refl
take-append (x ∷ xs) ys = ap (◌∷◌ x) (take-append xs ys)

drop-append :
    (xs : List Text) (y : Text) (ys : List Text) → drop (suc (length xs)) (xs ++ y ∷ ys) ≡ ys
drop-append [] y ys = refl
drop-append (x ∷ xs) y ys = drop-append xs y ys

not_blank-names : (ns : List Text) → All IsPortName ns → not_blank ns ≡ ns
not_blank-names [] h = refl
not_blank-names (n ∷ ns) h = rw (h.0.not_blank) (ap (◌∷◌ n) (not_blank-names ns h.1))

not_blank-name_lines : (ns : List Text) → All IsPortName ns → not_blank (name_lines ns) ≡ ns
not_blank-name_lines [] h = refl
not_blank-name_lines (n ∷ ns) h = not_blank-names (n ∷ ns) h

name_lines-Differs :
    (ns : List Text) → All (Differs (codes "IN")) ns → All (Differs (codes "IN")) (name_lines ns)
name_lines-Differs [] d = (refl, tt)
name_lines-Differs (n ∷ ns) d = d

index_of-in_mark :
    (outs inns : List Text)
    → All (Differs (codes "IN")) outs
    → index_of (codes "IN") (listed outs inns) ≡ some (suc (length (name_lines outs)))
index_of-in_mark outs inns d =
    rw
      (index_of-append (codes "IN") (name_lines outs) (name_lines inns) (name_lines-Differs outs d))
      refl

abbrev found : List Text → List Text → MidiEnumResult
found outs inns = record {
  outputs = outs;
  inputs = inns;
  failure = none;
  timed_out = false;
  returncode = some 0;
}

outputs_listed :
    (outs inns : List Text)
    → All IsPortName outs
    → not_blank (take (suc (length (name_lines outs)) - (0 + 1)) (drop (0 + 1) (listed outs inns)))
      ≡ outs
outputs_listed outs inns h =
    let n : suc (length (name_lines outs)) - (0 + 1) ≡ length (name_lines outs) = omega arith in
    rw (n, take-append (name_lines outs) (codes "IN" ∷ name_lines inns))
      (not_blank-name_lines outs h)

inputs_listed :
    (outs inns : List Text)
    → All IsPortName inns
    → not_blank (drop (suc (length (name_lines outs)) + 1) (listed outs inns)) ≡ inns
inputs_listed outs inns k =
    let n : suc (length (name_lines outs)) + 1 ≡ suc (suc (length (name_lines outs))) =
      omega arith in
    rw (n, drop-append (name_lines outs) (codes "IN") (name_lines inns))
      (not_blank-name_lines inns k)

between-listed :
    (text : Text) (outs inns : List Text)
    → All IsPortName outs
    → All IsPortName inns
    → between 0 text (listed outs inns) (some 0) (some (suc (length (name_lines outs))))
      ≡ found outs inns
between-listed text outs inns h k =
    ap₂ found (outputs_listed outs inns h) (inputs_listed outs inns k)

enumerate_midi_ports-listing :
    (outs inns : List Text)
    → All IsPortName outs
    → All IsPortName inns
    → All (Differs (codes "IN")) outs
    → enumerate_midi_ports (returned 0 (listing outs inns)) ≡ found outs inns
unfolding enumerate_midi_ports
enumerate_midi_ports-listing outs inns h k d =
    let text = listing outs inns in
    ap
      (λ (ls : List Text). between 0 text ls (index_of (codes "OUT") ls) (index_of (codes "IN") ls))
      (splitlines-listing outs inns h k)
    ∙ (ap (between 0 text (listed outs inns) (some 0)) (index_of-in_mark outs inns d)
        ∙ between-listed text outs inns h k)

-- What the child process prints is read back: whatever names the ports have, if none is blank or
-- holds a line break, and no output is called `IN`.
pub fresh_midi_port_names-listing :
    (outs inns : List Text)
    → All IsPortName outs
    → All IsPortName inns
    → All (Differs (codes "IN")) outs
    → fresh_midi_port_names (returned 0 (listing outs inns)) ≡ ok (outs, inns)
unfolding fresh_midi_port_names
fresh_midi_port_names-listing outs inns h k d =
    ap names_of (enumerate_midi_ports-listing outs inns h k d)
