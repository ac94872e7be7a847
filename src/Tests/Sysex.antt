-- ===== src/Tests/Sysex.antt =====
-- SysEx theorems of scripts/lab at concrete frames and polls.
use unitor_win64_driver.Base.{◌≡◌, arith, Bool, List, [], ◌∷◌, some, Bytes, codes, equal, All}
use unitor_win64_driver.Midi.{Message, Poll}
use unitor_win64_driver.Sysex.Frame.{framed, IsFrame}
use unitor_win64_driver.Sysex.Assembler.{new, push_raw_bytes}
use unitor_win64_driver.Sysex.Assembler.Stream.{
  IsPartial, empty, Segment, IsSegment, stream, frames, push_raw_bytes-IsFrame,
  push_raw_bytes-stream,
}
use unitor_win64_driver.Sysex.Wait.{WaitResult, wait_matched_sysex}
use unitor_win64_driver.Sysex.Wait.Laws.{
  Expires, now, later, frames_before, first_match, wait_matched_sysex-Returns,
}
use unitor_win64_driver.Sysex.Diff.{wait_exact_sysex}
use unitor_win64_driver.Sysex.Diff.Laws.{wait_exact_sysex-wait_matched_sysex}

abbrev one_two : Bytes
one_two = 1 ∷ 2 ∷ []

abbrev note_message : Message
note_message = record { kind = codes "note_on"; payload = []; raw = 0x90 ∷ 60 ∷ 64 ∷ [] }

abbrev sysex_message : Message
sysex_message = record { kind = codes "sysex"; payload = one_two; raw = framed one_two }

-- A note, then a frame, then the deadline
abbrev two_polls : List Poll
two_polls =
    record { now = 0; pending = note_message ∷ []; stamp = 1 }
    ∷ record { now = 5; pending = note_message ∷ sysex_message ∷ []; stamp = 6 }
    ∷ record { now = 30; pending = []; stamp = 31 }
    ∷ []

two_polls-Expires : Expires 20 two_polls
two_polls-Expires = later (later (now (omega arith)))

abbrev is_one_two : Bytes → Bool
is_one_two frame = equal frame (framed one_two)

wait_matched_sysex-Returns_example :
    (r : WaitResult) × (wait_matched_sysex is_one_two 10 10 two_polls ≡ some r)
    × (r.reply ≡ first_match is_one_two (frames_before 20 two_polls))
wait_matched_sysex-Returns_example =
    wait_matched_sysex-Returns is_one_two 10 10 {polls = two_polls} two_polls-Expires

wait_exact_sysex-wait_matched_sysex_example :
    (r : WaitResult) × (wait_exact_sysex (framed one_two) 10 10 two_polls ≡ some r)
    × ((s : WaitResult)
        → wait_matched_sysex (λ f. equal f (framed one_two)) 10 10 two_polls ≡ some s
        → r.reply ≡ s.reply)
    × ((f : Bytes) → r.reply ≡ some f → f ≡ framed one_two)
wait_exact_sysex-wait_matched_sysex_example =
    wait_exact_sysex-wait_matched_sysex (framed one_two) 10 10 {polls = two_polls} two_polls-Expires

-- Noise before the first of two frames
abbrev noisy : List Segment
noisy =
    record { noise = 0x90 ∷ 60 ∷ 64 ∷ []; body = one_two }
    ∷ record { noise = []; body = 0xF0 ∷ 3 ∷ [] }
    ∷ []

noisy-IsSegment : All IsSegment noisy
noisy-IsSegment = (
  record { noise_is_idle = ground arith; body_is_open = ground arith },
  (record { noise_is_idle = ground arith; body_is_open = ground arith }, tt),
)

push_raw_bytes-stream_example : push_raw_bytes (stream noisy) new ≡ (frames noisy, new)
push_raw_bytes-stream_example = push_raw_bytes-stream noisy noisy-IsSegment

push_raw_bytes-IsFrame_example :
    All IsFrame (push_raw_bytes (stream noisy) new).0
    × IsPartial (push_raw_bytes (stream noisy) new).1.buf
push_raw_bytes-IsFrame_example = push_raw_bytes-IsFrame (stream noisy) new empty
