-- ===== src/Tests/Labs.antt =====
-- Theorems of the loopback labs under scripts/lab at a short run.
use unitor_win64_driver.Base.{
  ◌+◌, ◌*◌, ◌≡◌, refl, true, ap, append-nil, arith, List, [], ◌∷◌, ◌++◌, Bytes, codes, length, All,
}
use unitor_win64_driver.Midi.{Message, is_kind}
use unitor_win64_driver.Lab.{arrivals, later_batches, raws, Run}
use unitor_win64_driver.Lab.Tally.{tally}
use unitor_win64_driver.Mtc.{
  Got, empty_got, build_time_frames, run_mtc_sequence, run_lab, score_pass,
}
use unitor_win64_driver.Mtc.Frames.{
  IsQuarterFrame, times_of, repeated, sent_time, build_time_frames_lem,
}
use unitor_win64_driver.Mtc.Echo.{played, IsTyped, run_lab-IsTyped}
use unitor_win64_driver.Mtc.Score.{counted, run_lab-score_pass}

abbrev quarter : Message
quarter = record { kind = codes "quarter_frame"; payload = []; raw = 0xF1 ∷ 0x04 ∷ [] }

abbrev short_run : Run Got
short_run = record {
  wire = record { sent = []; inbox = [] ∷ (quarter ∷ []) ∷ (quarter ∷ quarter ∷ []) ∷ [] };
  state = record { got = empty_got; samples = []; lines = [] };
}

run_lab-score_pass_example :
    run_lab 2 short_run
    ≡ score_pass
        (tally counted empty_got (arrivals (later_batches short_run.wire.inbox)))
        (2 * 8 + 8)
run_lab-score_pass_example = run_lab-score_pass 2 short_run

build_time_frames_lem_example :
    (length (build_time_frames 2) ≡ 2 * 8)
    × All IsQuarterFrame (build_time_frames 2)
    × (times_of (build_time_frames 2) ≡ repeated 2 sent_time)
build_time_frames_lem_example = build_time_frames_lem 2

abbrev message : Bytes → Message
message raw = record { kind = codes "unknown"; payload = []; raw = raw }

abbrev messages : List Bytes → List Message
messages [] = []
messages (raw ∷ raws_) = message raw ∷ messages raws_

-- Nothing answers the probe, then all that is sent comes back in one portion.
abbrev whole_run : Run Got
whole_run = record {
  wire = record { sent = []; inbox = [] ∷ messages (played 1) ∷ [] };
  state = record { got = empty_got; samples = []; lines = [] };
}

messages-IsTyped : (raws_ : List Bytes) → All IsTyped (messages raws_)
unfolding is_kind
messages-IsTyped [] = tt
messages-IsTyped (raw ∷ raws_) = ((λ h. absurd (ground (arith, h))), messages-IsTyped raws_)

raws-messages : (raws_ : List Bytes) → raws (messages raws_) ≡ raws_
raws-messages [] = refl
raws-messages (raw ∷ raws_) = ap (◌∷◌ raw) (raws-messages raws_)

run_lab-IsTyped_example :
    (run_lab 1 whole_run ≡ true)
    × ((run_mtc_sequence 1 whole_run).0.wire.sent ≡ whole_run.wire.sent ++ played 1)
run_lab-IsTyped_example =
    run_lab-IsTyped 1 whole_run (rw append-nil (messages-IsTyped (played 1)))
      (rw append-nil (raws-messages (played 1)))
