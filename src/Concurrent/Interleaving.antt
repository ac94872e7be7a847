-- ===== src/Concurrent/Interleaving.antt =====
-- The verdict does not depend on how the threads take turns.
use unitor_win64_driver.Base.{
  ℕ, suc, ◌+◌, ◌*◌, ◌/◌, ◌≡◌, refl, ap, Bool, false, ◌&&◌, some, List, [], ◌∷◌, arith, max, ltb,
  leb, ◌==◌, if◌then◌else◌, All,
}
use unitor_win64_driver.Sysex.Frame.{IsData}
use unitor_win64_driver.Concurrent.{
  InMessage, note_on, sysex, other_kind, Input, in1, in2, Counters, new_counters, note, patch,
  other, is_patch, score_sysex_frame, dispatch_midi_msg, idle, listen_step, Schedule, listen,
  run_stress,
}
use unitor_win64_driver.Concurrent.Reassembly.{frame_of, drain_sysex_hold-frame_of}

-- The bytes of a SysEx message are seven bits wide, as mido has them.
abbrev pub IsMidi : InMessage → Type 0
IsMidi (sysex payload) = IsData payload
IsMidi (note_on key velocity) = Unit
IsMidi other_kind = Unit

-- The messages of one input, in their order
abbrev pub heard1 : Schedule → List InMessage
heard1 [] = []
heard1 ((in1, m) ∷ steps) = m ∷ heard1 steps
heard1 ((in2, m) ∷ steps) = heard1 steps

abbrev pub heard2 : Schedule → List InMessage
heard2 [] = []
heard2 ((in1, m) ∷ steps) = heard2 steps
heard2 ((in2, m) ∷ steps) = m ∷ heard2 steps

-- How many of the messages pass a test
abbrev pub tally : (InMessage → Bool) → List InMessage → ℕ
tally test [] = 0
tally test (m ∷ ms) = if test m then suc (tally test ms) else tally test ms

-- A note that sounds, one with the marker of the other output, and a patch dump
abbrev pub is_note : InMessage → Bool
is_note (note_on key velocity) = ltb 0 velocity
is_note (sysex payload) = false
is_note other_kind = false

abbrev pub is_marker : InMessage → Bool
is_marker (note_on key velocity) = ltb 0 velocity && key == 72
is_marker (sysex payload) = false
is_marker other_kind = false

abbrev pub is_dump : InMessage → Bool
is_dump (note_on key velocity) = false
is_dump (sysex payload) = is_patch (frame_of payload)
is_dump other_kind = false

-- What the gates ask of the two inputs' messages
abbrev pub verdict : ℕ → List InMessage → List InMessage → Bool
verdict rounds ms1 ms2 =
    leb (rounds * 4) (tally is_note ms2)
    && (leb (max 1 (rounds / 2)) (tally is_dump ms1)
        && (tally is_marker ms1 == 0 && tally is_dump ms2 == 0))

-- The counters that the gates read, after messages have come to some that were there
record Adds (c : Counters) (ms1 ms2 : List InMessage) (d : Counters) : Type 0 where
  notes : d.in2_notes ≡ c.in2_notes + tally is_note ms2
  patches : d.in1_patch ≡ c.in1_patch + tally is_dump ms1
  markers : d.cross_note_on_in1 ≡ c.cross_note_on_in1 + tally is_marker ms1
  crossed : d.cross_patch_on_in2 ≡ c.cross_patch_on_in2 + tally is_dump ms2

-- The counters after one message, where no buffer holds anything
abbrev counted : Input → InMessage → Counters → Counters
counted which (note_on key velocity) c = if ltb 0 velocity then note which key c else other which c
counted which (sysex payload) c = score_sysex_frame which (frame_of payload) c
counted which other_kind c = other which c

dispatch_midi_msg-counted :
    (which : Input) (m : InMessage) (c : Counters)
    → IsMidi m
    → dispatch_midi_msg which m [] c ≡ some ([], counted which m c)
unfolding dispatch_midi_msg
dispatch_midi_msg-counted which (note_on key velocity) c h = refl
dispatch_midi_msg-counted which (sysex payload) c h = drain_sysex_hold-frame_of which payload c h
dispatch_midi_msg-counted which other_kind c h = refl

listen_step-counted :
    (which : Input) (m : InMessage) (c : Counters)
    → IsMidi m
    → listen_step which m (record idle { counters = c })
      ≡ some (record idle { counters = counted which m c })
unfolding listen_step
listen_step-counted in1 m c h = rw (dispatch_midi_msg-counted in1 m c h) refl
listen_step-counted in2 m c h = rw (dispatch_midi_msg-counted in2 m c h) refl

Adds-counted1 :
    (m : InMessage) (c d : Counters) {ms1 ms2 : List InMessage}
    → Adds (counted in1 m c) ms1 ms2 d
    → Adds c (m ∷ ms1) ms2 d
unfolding note patch other score_sysex_frame
Adds-counted1 (note_on key velocity) c d a = ground arith
Adds-counted1 (sysex payload) c d a = ground arith
Adds-counted1 other_kind c d a = ground arith

Adds-counted2 :
    (m : InMessage) (c d : Counters) {ms1 ms2 : List InMessage}
    → Adds (counted in2 m c) ms1 ms2 d
    → Adds c ms1 (m ∷ ms2) d
unfolding note patch other score_sysex_frame
Adds-counted2 (note_on key velocity) c d a = ground arith
Adds-counted2 (sysex payload) c d a = ground arith
Adds-counted2 other_kind c d a = ground arith

listen-Adds :
    (steps : Schedule) (c : Counters)
    → All (λ s. IsMidi s.1) steps
    → (d : Counters) × (listen steps (record idle { counters = c })
        ≡ some (record idle { counters = d }))
      × Adds c (heard1 steps) (heard2 steps) d
unfolding listen
listen-Adds [] c h = (c, refl, omega arith)
listen-Adds ((in1, m) ∷ steps) c h =
    let (d, e, a) = listen-Adds steps (counted in1 m c) h.1 in
    (d, rw (listen_step-counted in1 m c h.0) e, Adds-counted1 m c d a)
listen-Adds ((in2, m) ∷ steps) c h =
    let (d, e, a) = listen-Adds steps (counted in2 m c) h.1 in
    (d, rw (listen_step-counted in2 m c h.0) e, Adds-counted2 m c d a)

-- In whatever order the two threads take their messages, the stress run gives one verdict, which
-- depends only on what came to each input: enough sounding notes on the second and enough patch
-- dumps on the first, no note with the other output's marker on the first, and no dump on the
-- second. SysEx messages hold seven-bit data.
pub run_stress-verdict :
    (rounds : ℕ) (steps : Schedule)
    → All (λ s. IsMidi s.1) steps
    → run_stress rounds steps ≡ some (verdict rounds (heard1 steps) (heard2 steps))
unfolding run_stress
run_stress-verdict rounds steps h =
    let (d, e, a) = listen-Adds steps new_counters h in
    let n : d.in2_notes ≡ tally is_note (heard2 steps) = omega (arith, a.notes) in
    let p : d.in1_patch ≡ tally is_dump (heard1 steps) = omega (arith, a.patches) in
    let m : d.cross_note_on_in1 ≡ tally is_marker (heard1 steps) = omega (arith, a.markers) in
    let x : d.cross_patch_on_in2 ≡ tally is_dump (heard2 steps) = omega (arith, a.crossed) in
    rw e (ap some (rw (n, p, m, x) refl))
