-- ===== src/Concurrent.antt =====
-- Two listeners at once: scripts/lab/midi-concurrent-in-stress.py. Each thread reads the messages of
-- its input in their order; the counters are behind a lock, so a run is a sequence of steps, each
-- one message that one thread takes.
pub mod Reassembly
pub mod Interleaving
pub mod Finder
use unitor_win64_driver.Base.{
  ℕ, zero, suc, ◌+◌, ◌*◌, ◌/◌, Bool, true, false, ◌&&◌, Option, none, some, List, [], ◌∷◌, ◌++◌,
  Text, Bytes, max, ltb, leb, ◌==◌, if◌then◌else◌, length, starts_with, sorted, ◌>>=◌,
}
use unitor_win64_driver.Sysex.Frame.{patch_size, patch_prefix}
use unitor_win64_driver.Ports.{Ranked, rank_names, key_le, names_at}

-- What a listener reads of a mido message
pub data InMessage : Type 0 where
  note_on : ℕ → ℕ → InMessage
  sysex : Bytes → InMessage
  other_kind : InMessage

-- The port: `which`
pub data Input : Type 0 where
  in1 in2 : Input

pub record Counters : Type 0 where
  pub in1_notes : ℕ
  pub in2_notes : ℕ
  pub in1_patch : ℕ
  pub in2_patch : ℕ
  pub in1_other : ℕ
  pub in2_other : ℕ
  pub cross_note_on_in1 : ℕ
  pub cross_patch_on_in2 : ℕ

abbrev pub new_counters : Counters
new_counters = record {
  in1_notes = 0;
  in2_notes = 0;
  in1_patch = 0;
  in2_patch = 0;
  in1_other = 0;
  in2_other = 0;
  cross_note_on_in1 = 0;
  cross_patch_on_in2 = 0;
}

-- `Counters.note`: 72 is the marker of the other output.
unfoldable pub note : Input → ℕ → Counters → Counters
note in1 marker_note c = record c {
  in1_notes = c.in1_notes + 1;
  cross_note_on_in1 = if marker_note == 72 then c.cross_note_on_in1 + 1 else c.cross_note_on_in1;
}
note in2 marker_note c = record c { in2_notes = c.in2_notes + 1 }

unfoldable pub patch : Input → Counters → Counters
patch in1 c = record c { in1_patch = c.in1_patch + 1 }
patch in2 c = record c {
  in2_patch = c.in2_patch + 1;
  cross_patch_on_in2 = c.cross_patch_on_in2 + 1;
}

unfoldable pub other : Input → Counters → Counters
other in1 c = record c { in1_other = c.in1_other + 1 }
other in2 c = record c { in2_other = c.in2_other + 1 }

abbrev pub is_patch : Bytes → Bool
is_patch frame = length frame == patch_size && starts_with patch_prefix frame

unfoldable pub score_sysex_frame : Input → Bytes → Counters → Counters
unfolding patch other
score_sysex_frame which frame c = if is_patch frame then patch which c else other which c

-- `del hold[:start]` up to the first F0, or `hold.clear()` where there is none
abbrev pub from_start : Bytes → Bytes
from_start [] = []
from_start (b ∷ bs) = let rest = from_start bs in if b == 0xF0 then b ∷ bs else rest

-- `hold[: end + 1]` and what is left, with `end` the first F7, or `none` where there is none
unfoldable pub cut_end : Bytes → Option (Bytes × Bytes)
cut_end [] = none
cut_end (b ∷ bs) =
    let more : Option (Bytes × Bytes) = elim (cut_end bs) [
      | none ↦ none
      | some (frame, rest) ↦ some (b ∷ frame, rest)
    ] in
    if b == 0xF7 then some (b ∷ [], bs) else more

-- `_drain_sysex_hold`: the buffer and the counters behind it. On fuel, since the code loops until
-- the buffer holds no frame; `none` means that the fuel ran out.
unfoldable pub drain_loop : ℕ → Input → Bytes → Counters → Option (Bytes × Counters)
unfolding cut_end score_sysex_frame
drain_loop zero which hold c = none
drain_loop (suc fuel) which hold c = elim (from_start hold) [
  | [] ↦ some ([], c)
  | b ∷ bs ↦ elim (cut_end (b ∷ bs)) [
    | none ↦ some (b ∷ bs, c)
    | some (frame, rest) ↦ drain_loop fuel which rest (score_sysex_frame which frame c)
  ]
]

unfoldable pub drain_sysex_hold : Input → Bytes → Counters → Option (Bytes × Counters)
unfolding drain_loop
drain_sysex_hold which hold c = drain_loop (suc (length hold)) which hold c

unfoldable pub dispatch_midi_msg : Input → InMessage → Bytes → Counters → Option (Bytes × Counters)
unfolding drain_sysex_hold note other
dispatch_midi_msg which (note_on key velocity) hold c =
    some (hold, if ltb 0 velocity then note which key c else other which c)
dispatch_midi_msg which (sysex payload) hold c =
    drain_sysex_hold which (hold ++ (0xF0 ∷ (payload ++ 0xF7 ∷ []))) c
dispatch_midi_msg which other_kind hold c = some (hold, other which c)

-- The two threads' buffers and the counters that they share
pub record Listeners : Type 0 where
  pub hold1 : Bytes
  pub hold2 : Bytes
  pub counters : Counters

abbrev pub idle : Listeners
idle = record { hold1 = []; hold2 = []; counters = new_counters }

abbrev pub took1 : Listeners → Bytes × Counters → Listeners
took1 s (hold, c) = record s { hold1 = hold; counters = c }

abbrev pub took2 : Listeners → Bytes × Counters → Listeners
took2 s (hold, c) = record s { hold2 = hold; counters = c }

-- One thread takes one message.
unfoldable pub listen_step : Input → InMessage → Listeners → Option Listeners
unfolding dispatch_midi_msg
listen_step in1 m s = dispatch_midi_msg in1 m s.hold1 s.counters >>= λ r. some (took1 s r)
listen_step in2 m s = dispatch_midi_msg in2 m s.hold2 s.counters >>= λ r. some (took2 s r)

abbrev pub Schedule : Type 0
Schedule = List (Input × InMessage)

unfoldable pub listen : Schedule → Listeners → Option Listeners
unfolding listen_step
listen [] s = some s
listen ((which, m) ∷ steps) s = listen_step which m s >>= λ t. listen steps t

unfoldable pub score_stress : Counters → ℕ → Bool
score_stress c rounds =
    leb (rounds * 4) c.in2_notes
    && (leb (max 1 (rounds / 2)) c.in1_patch
        && (c.cross_note_on_in1 == 0 && c.cross_patch_on_in2 == 0))

-- `_run_stress`, on the steps that the threads make until they have stopped
unfoldable pub run_stress : ℕ → Schedule → Option Bool
unfolding listen score_stress
run_stress rounds steps = listen steps idle >>= λ s. some (score_stress s.counters rounds)

-- This script's own `_find_port`: `none` where no name or more than one has the best rank
abbrev pub only_name : List Text → Option Text
only_name [] = none
only_name (name ∷ []) = some name
only_name (a ∷ b ∷ names) = none

abbrev pub best_of : List Ranked → Option Text
best_of [] = none
best_of ((best_rank, name) ∷ ranked) = only_name (names_at best_rank ((best_rank, name) ∷ ranked))

unfoldable pub find_port : List Text → Text → Option Text
unfolding rank_names names_at
find_port names needle = best_of (sorted key_le (rank_names needle names))
