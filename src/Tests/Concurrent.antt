-- ===== src/Tests/Concurrent.antt =====
-- The two listeners on a short schedule.
use unitor_win64_driver.Base.{◌≡◌, some, [], ◌∷◌, Bytes, arith}
use unitor_win64_driver.Concurrent.{
  note_on, sysex, other_kind, in1, in2, Counters, new_counters, drain_sysex_hold, Schedule,
  run_stress,
}
use unitor_win64_driver.Concurrent.Reassembly.{IsUnfinished, drain_sysex_hold-IsUnfinished}
use unitor_win64_driver.Concurrent.Interleaving.{verdict, heard1, heard2, run_stress-verdict}

abbrev hold : Bytes
hold = 0x01 ∷ 0xF0 ∷ 0x10 ∷ 0xF7 ∷ 0xF0 ∷ 0x10 ∷ []

drain_sysex_hold-IsUnfinished_example :
    (hold' : Bytes) × (c' : Counters) × (drain_sysex_hold in1 hold new_counters ≡ some (hold', c'))
    × IsUnfinished hold'
drain_sysex_hold-IsUnfinished_example = drain_sysex_hold-IsUnfinished in1 hold new_counters

abbrev steps : Schedule
steps =
    (in1, note_on 72 64)
    ∷ (in2, note_on 72 64)
    ∷ (in1, sysex (0x10 ∷ 0x06 ∷ []))
    ∷ (in2, other_kind)
    ∷ []

run_stress-verdict_example : run_stress 1 steps ≡ some (verdict 1 (heard1 steps) (heard2 steps))
run_stress-verdict_example =
    run_stress-verdict 1 steps (tt, (tt, ((omega arith, (omega arith, tt)), (tt, tt))))
