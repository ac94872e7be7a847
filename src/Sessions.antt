-- ===== src/Sessions.antt =====
-- The fresh sessions of the Matrix labs: a new child process for each, with or without a new bridge.
-- Here is what scripts/lab/sysex-matrix-mid-loop.py and sysex-matrix-bank-loop.py have in common.
-- What each session meets is a recording; `none` where the recording is too short. The header of the
-- log, the times in it and the gap between sessions are left out.
pub mod Matrix
pub mod Verdict
pub mod Single
pub mod Accepted
pub mod Long
use unitor_win64_driver.Base.{
  ℕ, zero, suc, ◌+◌, Bool, true, false, ◌&&◌, not, Option, none, some, List, [], ◌∷◌, ◌++◌, Text,
  Result, ok, err, length, ◌==◌, if◌then◌else◌, ◌>>=◌, codes, any, contains, rstrip,
}
use unitor_win64_driver.Quality.Lines.{splitlines}
use unitor_win64_driver.Options.{CommandLine}
use unitor_win64_driver.Bridge.{
  ReadyPoll, ReadyError, Action, launch, StopWorld, stop, StartError, no_executable, not_ready,
  wait_until_ready,
}

-- The needles of sysex_matrix_mid_loop_lib.py and sysex_matrix_bank_loop_lib.py, fewer than those of
-- lab_midi_common.py
abbrev pub bridge_fail_needles : List Text
bridge_fail_needles =
    codes "MIDI I/O pump failed"
    ∷ codes "WriteBulk failed"
    ∷ codes "WriteBulk skipped"
    ∷ codes "Host→device WriteBulk"
    ∷ codes "Host->device WriteBulk"
    ∷ []

unfoldable pub fail_hits : List Text → List Text
fail_hits [] = []
fail_hits (line ∷ lines) =
    let rest = fail_hits lines in
    if any (λ needle. contains needle line) bridge_fail_needles then rstrip line ∷ rest else rest

-- `bridge_fail_lines` of these libraries
unfoldable pub bridge_fail_lines : Text → List Text
unfolding splitlines fail_hits
bridge_fail_lines text = fail_hits (splitlines text)

-- `completed.returncode`: a status, or a signal (negative)
pub data ReturnCode : Type 0 where
  status signal : ℕ → ReturnCode

abbrev pub is_zero : ReturnCode → Bool
is_zero (status code) = code == 0
is_zero (signal number) = false

-- What is added to the log behind its header
pub data LogLine : Type 0 where
  bridge_log_start : ℕ → LogLine
  bridge_fail_count : ℕ → ℕ → LogLine
  bridge_fail : Text → LogLine
  overall_pass : Bool → LogLine

abbrev pub fail_notes : List Text → List LogLine
fail_notes [] = []
fail_notes (hit ∷ hits) = bridge_fail hit ∷ fail_notes hits

-- `_record_bridge_fail_hits`
unfoldable pub record_bridge_fail_hits : ℕ → List Text → List LogLine × Bool
record_bridge_fail_hits start_index [] =
    (bridge_log_start start_index ∷ bridge_fail_count start_index 0 ∷ [], false)
record_bridge_fail_hits start_index (hit ∷ hits) = (
  bridge_log_start start_index
      ∷ bridge_fail_count start_index (suc (length hits))
      ∷ fail_notes (hit ∷ hits),
  true,
)

-- What one start of the bridge meets: its file, the clock and the polls of the wait, how the child
-- ends, what the bridge has printed by then, and its stop
pub record BridgeStart : Type 0 where
  pub is_file : Bool
  pub started : ℕ
  pub polls : List ReadyPoll
  pub rc : ReturnCode
  pub captured : Text
  pub stopping : StopWorld

-- What a run has done: the log, the children's options, and what was done to the bridges
pub record Done : Type 0 where
  pub log : List LogLine
  pub children : List CommandLine
  pub actions : List Action

abbrev pub nothing : Done
nothing = record { log = []; children = []; actions = [] }

abbrev pub behind : Done → Done → Done
behind d e = record {
  log = d.log ++ e.log;
  children = d.children ++ e.children;
  actions = d.actions ++ e.actions;
}

-- `_write_finish_footer`
unfoldable pub write_finish_footer : Bool → ℕ × List LogLine
write_finish_footer overall_ok = (if overall_ok then 0 else 2, overall_pass overall_ok ∷ [])

abbrev pub finished : Bool × Done → ℕ × Done
unfolding write_finish_footer
finished (overall_ok, d) = (
  (write_finish_footer overall_ok).0,
  record d { log = d.log ++ (write_finish_footer overall_ok).1 },
)

module _ (out_port in_port : Text) (ready_timeout : ℕ) (child : ℕ → CommandLine) where
  -- From the wait on: the session's return code and whether the bridge's output has a failure. The
  -- `finally` stops the bridge on every path.
  unfoldable pub start_outcome :
      ℕ
      → BridgeStart
      → Result ReadyError (Text × Text)
      → Result StartError (ReturnCode × Bool) × Done
  unfolding record_bridge_fail_hits bridge_fail_lines stop
  start_outcome start_index b (err e) = (
    err (not_ready e),
    record { log = []; children = []; actions = launch ∷ stop true b.stopping },
  )
  start_outcome start_index b (ok names) =
      let recorded = record_bridge_fail_hits start_index (bridge_fail_lines b.captured) in
      (
        ok (b.rc, recorded.1),
        record {
          log = recorded.0;
          children = child start_index ∷ [];
          actions = launch ∷ stop true b.stopping;
        },
      )

  unfoldable pub run_one_bridge_start :
      ℕ → BridgeStart → Option (Result StartError (ReturnCode × Bool) × Done)
  unfolding start_outcome wait_until_ready
  run_one_bridge_start start_index b =
      let launched = wait_until_ready out_port in_port b.started ready_timeout b.polls >>= λ r.
      some (start_outcome start_index b r) in
      if b.is_file then launched else some (err no_executable, nothing)

  -- `rc != 0` or a failure of the bridge fails the run, and the loop goes on; an exception leaves it.
  abbrev pub go_on :
      Bool
      → (Bool → Option (Result StartError Bool × Done))
      → Result StartError (ReturnCode × Bool) × Done
      → Option (Result StartError Bool × Done)
  go_on overall_ok more (err e, d) = some (err e, d)
  go_on overall_ok more (ok (rc, saw_fail), d) =
      more (overall_ok && (is_zero rc && not saw_fail)) >>= λ r. some (r.0, behind d r.1)

  -- The loop of `_run_with_bridge`, over the starts that are left
  unfoldable pub bridge_starts :
      ℕ → ℕ → List BridgeStart → Bool → Option (Result StartError Bool × Done)
  unfolding run_one_bridge_start
  bridge_starts zero start_index bs overall_ok = some (ok overall_ok, nothing)
  bridge_starts (suc n) start_index [] overall_ok = none
  bridge_starts (suc n) start_index (b ∷ bs) overall_ok =
      run_one_bridge_start start_index b >>= λ r.
      go_on overall_ok (bridge_starts n (start_index + 1) bs) r

  abbrev pub finish_starts : Result StartError Bool × Done → Result StartError ℕ × Done
  finish_starts (err e, d) = (err e, d)
  finish_starts (ok overall_ok, d) = let f = finished (overall_ok, d) in (ok f.0, f.1)

  unfoldable pub run_with_bridge : ℕ → List BridgeStart → Option (Result StartError ℕ × Done)
  unfolding bridge_starts
  run_with_bridge fresh_starts bs =
      bridge_starts fresh_starts 1 bs true >>= λ r. some (finish_starts r)

  -- The loop of `_run_fresh_midi_sessions`, over the return codes of the children
  unfoldable pub midi_sessions : ℕ → ℕ → List ReturnCode → Bool → Option (Bool × Done)
  midi_sessions zero start_index rcs overall_ok = some (overall_ok, nothing)
  midi_sessions (suc n) start_index [] overall_ok = none
  midi_sessions (suc n) start_index (rc ∷ rcs) overall_ok =
      midi_sessions n (start_index + 1) rcs (overall_ok && is_zero rc) >>= λ r.
      some (r.0, record r.1 { children = child start_index ∷ r.1.children })

  unfoldable pub run_fresh_midi_sessions : ℕ → List ReturnCode → Option (ℕ × Done)
  unfolding midi_sessions
  run_fresh_midi_sessions fresh_sessions rcs =
      midi_sessions fresh_sessions 1 rcs true >>= λ r. some (finished r)
