-- ===== src/Stress.antt =====
-- The drivers that start the labs as child processes, cycle after cycle, until a deadline. Here is
-- what the scripts scripts/lab/overnight-combined-stress.py, overnight-macos-sysex-stress.py,
-- overnight-matrix-stress.py and overnight-long-loopback-stress.py have in common; the children of
-- this module are the scripts, and the driver with one bridge for the whole run.
-- A run goes over a recording of the clock, in milliseconds, and of how each child ends.
pub mod Combined
pub mod Macos
pub mod Matrix
pub mod LongLoop
pub mod Accepted
pub mod Accounts
pub mod Returns
pub mod Longevity
pub mod Monitor
use unitor_win64_driver.Base.{
  ℕ, ◌+◌, ◌-◌, Bool, true, false, ◌||◌, not, Option, none, some, List, [], ◌∷◌, ◌++◌, Text, ltb,
  ◌==◌, if◌then◌else◌,
}
use unitor_win64_driver.Options.{CommandLine}

-- The phases of a cycle
pub data Label : Type 0 where
  mid bank long : Label

-- How a child ends: with a status, by a signal (a negative return code), or by Ctrl+C
pub data ChildEnd : Type 0 where
  exited : ℕ → ChildEnd
  killed : ℕ → ChildEnd
  interrupted : ChildEnd

-- A line of the journal, with what it prints, less the time stamp
pub data Note : Type 0 where
  run_line : Label → CommandLine → Note
  interrupt_child interrupt_gap : Note
  cycle_line : ℕ → ℕ → Note
  pass_line : ℕ → Label → Note
  fail_line : ℕ → Label → ChildEnd → Note
  gap_line : ℕ → Note

pub record CycleStats : Type 0 where
  pub mid_ok : ℕ
  pub mid_fail : ℕ
  pub bank_ok : ℕ
  pub bank_fail : ℕ
  pub long_ok : ℕ
  pub long_fail : ℕ
  pub stopped : Bool
  pub lines : List Note

abbrev pub new_stats : CycleStats
new_stats = record {
  mid_ok = 0;
  mid_fail = 0;
  bank_ok = 0;
  bank_fail = 0;
  long_ok = 0;
  long_fail = 0;
  stopped = false;
  lines = [];
}

abbrev pub note : Note → CycleStats → CycleStats
note line s = record s { lines = s.lines ++ line ∷ [] }

-- `setattr(stats, f"{label}_ok", … + 1)`
abbrev pub count_ok : Label → CycleStats → CycleStats
count_ok mid s = record s { mid_ok = s.mid_ok + 1 }
count_ok bank s = record s { bank_ok = s.bank_ok + 1 }
count_ok long s = record s { long_ok = s.long_ok + 1 }

abbrev pub count_fail : Label → CycleStats → CycleStats
count_fail mid s = record s { mid_fail = s.mid_fail + 1 }
count_fail bank s = record s { bank_fail = s.bank_fail + 1 }
count_fail long s = record s { long_fail = s.long_fail + 1 }

-- `rc == 0`; an interrupted child gives 130.
abbrev pub is_zero : ChildEnd → Bool
is_zero (exited code) = code == 0
is_zero (killed signal) = false
is_zero interrupted = false

-- `_run_child`: the return code is that of the recorded end.
unfoldable pub run_child : Label → CommandLine → ChildEnd → CycleStats → CycleStats
run_child label command (exited code) s = note (run_line label command) s
run_child label command (killed signal) s = note (run_line label command) s
run_child label command interrupted s =
    note interrupt_child (record (note (run_line label command) s) { stopped = true })

unfoldable pub note_phase_result : ℕ → Label → ChildEnd → CycleStats → CycleStats
note_phase_result cycle label rc s =
    if is_zero rc
    then note (pass_line cycle label) (count_ok label s)
    else note (fail_line cycle label rc) (count_fail label s)

-- `_should_stop`, with the clock that it reads
unfoldable pub should_stop : ℕ → ℕ → CycleStats → Bool
should_stop deadline now s = not (ltb now deadline) || s.stopped

unfoldable pub run_labeled_child : ℕ → Label → CommandLine → ChildEnd → CycleStats → CycleStats
unfolding run_child note_phase_result
run_labeled_child cycle label command ended s =
    let ran = run_child label command ended s in
    if ran.stopped then ran else note_phase_result cycle label ended ran

-- `_run_cycle_gap`, with whether Ctrl+C comes during the sleep
unfoldable pub run_cycle_gap : ℕ → Bool → CycleStats → CycleStats
run_cycle_gap gap hit s =
    let slept = note (gap_line gap) s in
    if ltb 0 gap
    then (if hit then note interrupt_gap (record slept { stopped = true }) else slept)
    else s

-- How a phase ends, and the clock at the test behind it
pub record Phase : Type 0 where
  pub ended : ChildEnd
  pub clock : ℕ

-- The clock at the test of the loop, at the start of the cycle, the phases, and whether Ctrl+C
-- comes in the gap
pub record Cycle : Type 0 where
  pub top : ℕ
  pub started : ℕ
  pub phase : Label → Phase
  pub gap_hit : Bool

module _ (deadline gap : ℕ) (command : ℕ → Label → CommandLine) where
  -- The body of `_run_one_cycle` from a phase on: the child, and the test behind it
  unfoldable pub run_phases : ℕ → Cycle → List Label → CycleStats → CycleStats
  unfolding run_labeled_child run_cycle_gap should_stop
  run_phases cycle c [] s = run_cycle_gap gap c.gap_hit s
  run_phases cycle c (label ∷ labels) s =
      let s' = run_labeled_child cycle label (command cycle label) (c.phase label).ended s in
      let rest = run_phases cycle c labels s' in
      if should_stop deadline (c.phase label).clock s' then s' else rest

  unfoldable pub run_one_cycle : List Label → ℕ → Cycle → CycleStats → CycleStats
  unfolding run_phases
  run_one_cycle labels cycle c s =
      run_phases cycle c labels (note (cycle_line cycle (deadline - c.started)) s)

  -- The `while` loop: the number of cycles begun, and the counters. `none`: the recording ends
  -- before the loop does.
  unfoldable pub cycle_loop : List Label → ℕ → CycleStats → List Cycle → Option (ℕ × CycleStats)
  unfolding run_one_cycle should_stop
  cycle_loop labels cycle s [] = none
  cycle_loop labels cycle s (c ∷ cs) =
      let rest = cycle_loop labels (cycle + 1) (run_one_cycle labels (cycle + 1) c s) cs in
      if should_stop deadline c.top s then some (cycle, s) else rest
