-- ===== src/Stress/Longevity.antt =====
-- scripts/lab/wms-session-longevity-stress.py: one bridge for the whole run, and an end at the first
-- failure. The recording also says whether the bridge and the MIDI service are alive, where the code
-- asks. The run starts once the bridge is ready: what comes before raises, or changes no counter.
mod Command
unfoldable pub use Command.*
use unitor_win64_driver.Base.{
  ℕ, ◌+◌, ◌-◌, ◌||◌, Bool, true, false, ◌&&◌, not, Option, none, some, List, [], ◌∷◌, ◌++◌, Text,
  codes, ltb, ◌==◌, if◌then◌else◌, is_blank, ◌>>=◌,
}
use unitor_win64_driver.Options.{text, num, seconds, CommandLine, first_refusal}
use unitor_win64_driver.Stress.{
  Label, mid, bank, long, ChildEnd, exited, killed, interrupted, is_zero,
}

-- Why a run is aborted, with the place in words or the phase
pub data Reason : Type 0 where
  bridge_died midisrv_died : Text → Label → Reason
  child_failed : Label → ChildEnd → ℕ → Reason

pub data Note : Type 0 where
  run_line : Label → CommandLine → Note
  interrupt_child interrupt_gap : Note
  cycle_line : ℕ → ℕ → Note
  pass_line : ℕ → Label → Note
  fail_line : ℕ → Label → ChildEnd → Note
  abort_line : Reason → Note
  gap_line : ℕ → Note

pub record CycleStats : Type 0 where
  pub mid_ok : ℕ
  pub mid_fail : ℕ
  pub bank_ok : ℕ
  pub bank_fail : ℕ
  pub long_ok : ℕ
  pub long_fail : ℕ
  pub stopped : Bool
  pub aborted : Bool
  pub abort_reason : Option Reason
  pub lines : List Note

abbrev pub new_stats : CycleStats
new_stats = record {
  mid_ok = 0;
  mid_fail = 0;
  bank_ok = 0;
  bank_fail = 0;
  long_ok = 0;
  long_fail = 0;
  stopped = false;
  aborted = false;
  abort_reason = none;
  lines = [];
}

abbrev pub note : Note → CycleStats → CycleStats
note line s = record s { lines = s.lines ++ line ∷ [] }

-- `CycleStats.abort`
unfoldable pub abort : Reason → CycleStats → CycleStats
abort reason s =
    note (abort_line reason)
      (record s { aborted = true; stopped = true; abort_reason = some reason })

abbrev pub count_ok : Label → CycleStats → CycleStats
count_ok mid s = record s { mid_ok = s.mid_ok + 1 }
count_ok bank s = record s { bank_ok = s.bank_ok + 1 }
count_ok long s = record s { long_ok = s.long_ok + 1 }

abbrev pub count_fail : Label → CycleStats → CycleStats
count_fail mid s = record s { mid_fail = s.mid_fail + 1 }
count_fail bank s = record s { bank_fail = s.bank_fail + 1 }
count_fail long s = record s { long_fail = s.long_fail + 1 }

unfoldable pub run_child : Label → CommandLine → ChildEnd → CycleStats → CycleStats
run_child label command (exited code) s = note (run_line label command) s
run_child label command (killed signal) s = note (run_line label command) s
run_child label command interrupted s =
    note interrupt_child (record (note (run_line label command) s) { stopped = true })

unfoldable pub note_phase_result : ℕ → Label → ChildEnd → CycleStats → CycleStats
unfolding abort
note_phase_result cycle label rc s =
    if is_zero rc
    then note (pass_line cycle label) (count_ok label s)
    else abort (child_failed label rc cycle) (note (fail_line cycle label rc) (count_fail label s))

unfoldable pub should_stop : ℕ → ℕ → CycleStats → Bool
should_stop deadline now s = not (ltb now deadline) || s.stopped || s.aborted

-- What a phase finds: whether the bridge and the service are alive before and after the child, how
-- the child ends, and the clock at the test behind the phase
pub record Phase : Type 0 where
  pub bridge_before : Bool
  pub midisrv_before : Bool
  pub ended : ChildEnd
  pub bridge_after : Bool
  pub midisrv_after : Bool
  pub clock : ℕ

-- From the checks behind the child on
unfoldable pub child_done : ℕ → Label → Phase → CycleStats → CycleStats
unfolding abort note_phase_result
child_done cycle label p s =
    if not p.bridge_after
    then abort (bridge_died (codes "after ") label) s
    else if not p.midisrv_after
    then abort (midisrv_died (codes "after ") label) s
    else note_phase_result cycle label p.ended s

unfoldable pub run_labeled_child : ℕ → Label → CommandLine → Phase → CycleStats → CycleStats
unfolding abort run_child child_done
run_labeled_child cycle label command p s =
    let ran = run_child label command p.ended s in
    if not p.bridge_before
    then abort (bridge_died (codes "before ") label) s
    else if not p.midisrv_before
    then abort (midisrv_died (codes "before ") label) s
    else if ran.stopped && not ran.aborted
    then ran
    else child_done cycle label p ran

unfoldable pub run_cycle_gap : ℕ → Bool → CycleStats → CycleStats
run_cycle_gap gap hit s =
    let slept = note (gap_line gap) s in
    if ltb 0 gap
    then (if hit then note interrupt_gap (record slept { stopped = true }) else slept)
    else s

pub record Cycle : Type 0 where
  pub top : ℕ
  pub started : ℕ
  pub phase : Label → Phase
  pub gap_hit : Bool

module _ (deadline gap : ℕ) (command : ℕ → Label → CommandLine) where
  unfoldable pub run_phases : ℕ → Cycle → List Label → CycleStats → CycleStats
  unfolding run_labeled_child run_cycle_gap should_stop
  run_phases cycle c [] s = run_cycle_gap gap c.gap_hit s
  run_phases cycle c (label ∷ labels) s =
      let s' = run_labeled_child cycle label (command cycle label) (c.phase label) s in
      let rest = run_phases cycle c labels s' in
      if should_stop deadline (c.phase label).clock s' then s' else rest

  unfoldable pub run_one_cycle : ℕ → Cycle → CycleStats → CycleStats
  unfolding run_phases
  run_one_cycle cycle c s =
      run_phases cycle c (mid ∷ bank ∷ long ∷ []) (note (cycle_line cycle (deadline - c.started)) s)

  -- `none`: the recording ends before the loop does.
  unfoldable pub cycle_loop : ℕ → CycleStats → List Cycle → Option (ℕ × CycleStats)
  unfolding run_one_cycle should_stop
  cycle_loop cycle s [] = none
  cycle_loop cycle s (c ∷ cs) =
      let rest = cycle_loop (cycle + 1) (run_one_cycle (cycle + 1) c s) cs in
      if should_stop deadline c.top s then some (cycle, s) else rest

unfoldable pub exit_code : CycleStats → ℕ
exit_code s =
    if s.aborted
    then 2
    else if s.stopped
    then 130
    else if not (s.mid_fail == 0) || not (s.bank_fail == 0) || not (s.long_fail == 0)
    then 2
    else 0

-- The `finally` of `run_longevity`: whether the bridge is left up, for one that is alive or not
unfoldable pub leaves_bridge_up : Bool → CycleStats → Bool
leaves_bridge_up alive s = s.aborted && alive

-- `run_longevity` from the first test of its loop on, begun at `start`: the status, and whether the
-- bridge is left up
unfoldable pub run_longevity : (ℕ → Label → Text) → Args → ℕ → List Cycle → Bool → Option (ℕ × Bool)
unfolding cycle_loop exit_code leaves_bridge_up
run_longevity dir args start cycles alive =
    cycle_loop (start + args.hours) args.cycle_gap (child_command dir args) 0 new_stats cycles
    >>= λ r. some (exit_code r.1, leaves_bridge_up alive r.1)
