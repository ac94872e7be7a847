-- ===== src/Tests/Clock.antt =====
-- Theorems of the clock lab at a run of two clocks.
use unitor_win64_driver.Base.{◌≡◌, refl, true, List, [], ◌∷◌, Bytes, codes}
use unitor_win64_driver.Midi.{Message}
use unitor_win64_driver.Lab.{Run}
use unitor_win64_driver.Clock.{Got, empty_got, run_lab}
use unitor_win64_driver.Clock.Transport.{status, played, run_lab-played}

abbrev message : Bytes → Message
message raw = record { kind = codes "unknown"; payload = []; raw = raw }

abbrev messages : List Bytes → List Message
messages [] = []
messages (raw ∷ raws_) = message raw ∷ messages raws_

abbrev note : Message
note = message (0x90 ∷ 60 ∷ 64 ∷ [])

-- The note of the probe comes back, then all of the transport in one portion.
abbrev whole_run : Run Got
whole_run = record {
  wire = record { sent = []; inbox = (note ∷ []) ∷ messages (played (status 0xFC ∷ []) 2) ∷ [] };
  state = record { got = empty_got; samples = []; lines = [] };
}

run_lab-played_example : run_lab 2 whole_run ≡ true
run_lab-played_example = run_lab-played true 2 whole_run refl
