-- ===== src/Bridge/Listing.antt =====
-- The enumeration of the MIDI ports in a child process: `enumerate_midi_ports` and
-- `fresh_midi_port_names` of scripts/lab/lab_midi_common.py, and `_fresh_midi_port_names` of
-- scripts/lab/midi-concurrent-in-stress.py, over the text that the child prints.
use unitor_win64_driver.Base.{
  ℕ, suc, ◌+◌, ◌-◌, Bool, true, false, not, Option, none, some, List, [], ◌∷◌, ◌++◌, Text, codes,
  Result, ok, err, ◌==◌, if◌then◌else◌, equal, is_blank, keep, take, drop,
}
use unitor_win64_driver.Quality.Lines.{splitlines}

-- What `subprocess.run` does: it times out, it cannot spawn, or the child returns with a status and
-- what it has printed.
pub data Enumeration : Type 0 where
  timeout_expired spawn_failed : Enumeration
  returned : ℕ → Text → Enumeration

pub data EnumFailure : Type 0 where
  expired not_spawned : EnumFailure
  bad_status : ℕ → EnumFailure
  unexpected_output : Text → EnumFailure

-- `MidiEnumResult`, less the elapsed time; a result without a failure is `ok`.
pub record MidiEnumResult : Type 0 where
  pub outputs : List Text
  pub inputs : List Text
  pub failure : Option EnumFailure
  pub timed_out : Bool
  pub returncode : Option ℕ

-- `lines.index(name)`, or `none` where it raises
abbrev pub index_of : Text → List Text → Option ℕ
index_of name [] = none
index_of name (line ∷ lines) =
    let more : Option ℕ = elim (index_of name lines) [ none ↦ none | some i ↦ some (suc i) ] in
    if equal line name then some 0 else more

abbrev pub not_blank : List Text → List Text
not_blank = keep (λ line. not (is_blank line))

abbrev pub failed_with : EnumFailure → Option ℕ → MidiEnumResult
failed_with e code = record {
  outputs = [];
  inputs = [];
  failure = some e;
  timed_out = false;
  returncode = code;
}

abbrev pub between : ℕ → Text → List Text → Option ℕ → Option ℕ → MidiEnumResult
between code stdout lines (some out_idx) (some in_idx) = record {
  outputs = not_blank (take (in_idx - (out_idx + 1)) (drop (out_idx + 1) lines));
  inputs = not_blank (drop (in_idx + 1) lines);
  failure = none;
  timed_out = false;
  returncode = some code;
}
between code stdout lines (some out_idx) none = failed_with (unexpected_output stdout) (some code)
between code stdout lines none in_idx = failed_with (unexpected_output stdout) (some code)

unfoldable pub enumerate_midi_ports : Enumeration → MidiEnumResult
unfolding splitlines
enumerate_midi_ports timeout_expired = record (failed_with expired none) { timed_out = true }
enumerate_midi_ports spawn_failed = failed_with not_spawned none
enumerate_midi_ports (returned code stdout) =
    let lines = splitlines stdout in
    if not (code == 0)
    then failed_with (bad_status code) (some code)
    else between code stdout lines (index_of (codes "OUT") lines) (index_of (codes "IN") lines)

pub data FreshError : Type 0 where
  midisrv_suspect : FreshError
  failed_to_enumerate : EnumFailure → FreshError

-- The two tests of `fresh_midi_port_names` on the result
abbrev pub names_of : MidiEnumResult → Result FreshError (List Text × List Text)
names_of r =
    let listed : Result FreshError (List Text × List Text) = elim r.failure [
      | some f ↦ err (failed_to_enumerate f)
      | none ↦ ok (r.outputs, r.inputs)
    ] in
    if r.timed_out then err midisrv_suspect else listed

unfoldable pub fresh_midi_port_names : Enumeration → Result FreshError (List Text × List Text)
unfolding enumerate_midi_ports
fresh_midi_port_names e = names_of (enumerate_midi_ports e)

-- The loop of the stress script, which keeps a mode
pub data Mode : Type 0 where
  no_mode out_mode in_mode : Mode

abbrev pub put : Mode → Text → List Text × List Text → List Text × List Text
put no_mode line ls = ls
put out_mode line ls = (line ∷ ls.0, ls.1)
put in_mode line ls = (ls.0, line ∷ ls.1)

unfoldable pub mode_lines : Mode → List Text → List Text × List Text
mode_lines mode [] = ([], [])
mode_lines mode (line ∷ lines) =
    let to_outs = mode_lines out_mode lines in
    let to_inns = mode_lines in_mode lines in
    let same = mode_lines mode lines in
    if equal line (codes "OUT")
    then to_outs
    else if equal line (codes "IN")
    then to_inns
    else if is_blank line
    then same
    else put mode line same

-- This script has no timeout: `none` where it raises.
unfoldable pub stress_port_names : ℕ → Text → Option (List Text × List Text)
unfolding mode_lines splitlines
stress_port_names code stdout =
    if not (code == 0) then none else some (mode_lines no_mode (splitlines stdout))

-- What the child prints: each `print` of the joined names ends a line, also where there are none.
unfoldable pub printed_names : List Text → Text
printed_names [] = 10 ∷ []
printed_names (n ∷ []) = n ++ 10 ∷ []
printed_names (n ∷ m ∷ ns) = n ++ (10 ∷ printed_names (m ∷ ns))

unfoldable pub listing : List Text → List Text → Text
unfolding printed_names
listing outs inns =
    codes "OUT" ++ (10 ∷ (printed_names outs ++ (codes "IN" ++ (10 ∷ printed_names inns))))
