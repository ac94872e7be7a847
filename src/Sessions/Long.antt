-- ===== src/Sessions/Long.antt =====
-- The fresh sessions of scripts/lab/sysex-long-loopback.py, which share one wall budget: a run stops
-- at the first session that it does not begin in time, or that aborts. The header of the log, the
-- times in it and the gap between sessions are left out.
pub mod Budget
pub mod Plan
pub mod Payloads
pub mod Wall
use unitor_win64_driver.Base.{
  ℕ, zero, suc, ◌+◌, ◌-◌, ◌*◌, Bool, true, false, ◌&&◌, ◌||◌, not, Option, none, some, List, [],
  ◌∷◌, ◌++◌, Text, codes, Result, ok, err, max, ltb, leb, ◌==◌, if◌then◌else◌, ◌>>=◌, decimal,
}
use unitor_win64_driver.Options.{switch, text, num, seconds, CommandLine}
use unitor_win64_driver.Options.Labs.{LongOptions}
use unitor_win64_driver.Bridge.{StartError}
use unitor_win64_driver.Sessions.{
  ReturnCode, status, signal, is_zero, BridgeStart, Done, nothing, behind, run_one_bridge_start,
}
use unitor_win64_driver.Sessions.Matrix.{Ports, flag_unless}

-- `EXIT_ABORTED`
abbrev pub exit_aborted : ℕ
exit_aborted = 3

abbrev pub is_aborted : ReturnCode → Bool
is_aborted (status code) = code == exit_aborted
is_aborted (signal number) = false

-- `subprocess.run` with the timeout: the child returns, or it is killed at the end of the budget.
pub data ChildRun : Type 0 where
  returned : ReturnCode → ChildRun
  wall_expired : ChildRun

abbrev pub return_code : ChildRun → ReturnCode
return_code (returned rc) = rc
return_code wall_expired = status exit_aborted

abbrev pub joined_sizes : List ℕ → Text
joined_sizes [] = []
joined_sizes (size ∷ []) = decimal size
joined_sizes (size ∷ next ∷ sizes) = decimal size ++ (b',' ∷ joined_sizes (next ∷ sizes))

-- `_run_midi_lab_in_fresh_process`, behind the name of the script, at a clock. `shown` is what the
-- format with one decimal makes of a time.
unfoldable pub long_child :
    (ℕ → ℕ) → LongOptions → List ℕ → Ports → Text → Text → Option ℕ → ℕ → ℕ → CommandLine
long_child shown o sizes p fixture log_path deadline clock start_index =
    let remaining : ℕ = elim deadline [ none ↦ o.max_wall | some d ↦ max 1000 (d - clock) ] in
    ((codes "--count", num o.count)
      ∷ (codes "--interval", seconds o.interval)
      ∷ (codes "--reply-timeout", seconds o.reply_timeout)
      ∷ (codes "--pass-percent", num p.pass_percent)
      ∷ (codes "--sizes", text (joined_sizes sizes))
      ∷ (codes "--fixture", text fixture)
      ∷ (codes "--out-port", text p.out_port)
      ∷ (codes "--in-port", text p.in_port)
      ∷ (codes "--log", text log_path)
      ∷ (codes "--start-index", num start_index)
      ∷ (codes "--append-log", switch)
      ∷ (codes "--abort-after-timeouts", num o.abort_after_timeouts)
      ∷ [])
    ++ ((if ltb 0 o.max_wall
          then (codes "--max-wall-seconds", seconds (shown remaining)) ∷ []
          else [])
        ++ flag_unless (not o.skip_fixture) (codes "--skip-fixture"))

-- `check_wall_deadline`: whether it raises at a clock
unfoldable pub check_wall_deadline : Option ℕ → ℕ → Bool
check_wall_deadline none clock = false
check_wall_deadline (some deadline) clock = leb deadline clock

-- Where a loop stands: `overall_ok` and `aborted`
pub record Verdict : Type 0 where
  pub overall_ok : Bool
  pub aborted : Bool

-- `_write_finish_footer`: the status
unfoldable pub finish_status : Verdict → ℕ
finish_status v = if v.aborted then exit_aborted else if v.overall_ok then 0 else 2

abbrev pub out_of_time : Verdict
out_of_time = record { overall_ok = false; aborted = true }

-- The tests behind a session
abbrev pub after_session : ReturnCode → Bool → Bool → Verdict
after_session rc saw_fail overall_ok = record {
  overall_ok = overall_ok && (is_zero rc && not saw_fail);
  aborted = is_aborted rc;
}

-- A session of the loop: the clock at its test, and how its child ends
pub record Session : Type 0 where
  pub clock : ℕ
  pub child : ChildRun

-- The same with a bridge: what its start meets, and the clock at the launch of the child
pub record LongStart : Type 0 where
  pub clock : ℕ
  pub launched : ℕ
  pub bridge : BridgeStart

module _ (deadline : Option ℕ) where
  -- The loop of `_run_fresh_midi_sessions`: the verdict and the number of children; `none` where the
  -- recording is too short
  unfoldable pub midi_sessions : ℕ → List Session → Bool → Option (Verdict × ℕ)
  unfolding check_wall_deadline
  midi_sessions zero ss overall_ok = some (record { overall_ok = overall_ok; aborted = false }, 0)
  midi_sessions (suc n) [] overall_ok = none
  midi_sessions (suc n) (s ∷ ss) overall_ok =
      let v = after_session (return_code s.child) false overall_ok in
      let rest = midi_sessions n ss v.overall_ok >>= λ r. some (r.0, suc r.1) in
      if check_wall_deadline deadline s.clock
      then some (out_of_time, 0)
      else if v.aborted
      then some (v, 1)
      else rest

  unfoldable pub run_fresh_midi_sessions : ℕ → List Session → Option (ℕ × ℕ)
  unfolding midi_sessions finish_status
  run_fresh_midi_sessions fresh_sessions ss =
      midi_sessions fresh_sessions ss true >>= λ r. some (finish_status r.0, r.1)

  module _ (out_port in_port : Text) (ready_timeout : ℕ) (child : ℕ → ℕ → CommandLine) where
    abbrev pub go_on :
        Bool
        → (Bool → Option (Result StartError Verdict × Done))
        → Result StartError (ReturnCode × Bool) × Done
        → Option (Result StartError Verdict × Done)
    go_on overall_ok more (err e, d) = some (err e, d)
    go_on overall_ok more (ok (rc, saw_fail), d) =
        let v = after_session rc saw_fail overall_ok in
        let rest = more v.overall_ok >>= λ r. some (r.0, behind d r.1) in
        if v.aborted then some (ok v, d) else rest

    -- The loop of `_run_with_bridge`
    unfoldable pub bridge_starts :
        ℕ → ℕ → List LongStart → Bool → Option (Result StartError Verdict × Done)
    unfolding run_one_bridge_start check_wall_deadline
    bridge_starts zero start_index bs overall_ok =
        some (ok (record { overall_ok = overall_ok; aborted = false }), nothing)
    bridge_starts (suc n) start_index [] overall_ok = none
    bridge_starts (suc n) start_index (b ∷ bs) overall_ok =
        let started =
          run_one_bridge_start out_port in_port ready_timeout (child b.launched) start_index
            b.bridge
          >>= λ r. go_on overall_ok (bridge_starts n (start_index + 1) bs) r in
        if check_wall_deadline deadline b.clock then some (ok out_of_time, nothing) else started

    abbrev pub finish_starts : Result StartError Verdict × Done → Result StartError ℕ × Done
    unfolding finish_status
    finish_starts (err e, d) = (err e, d)
    finish_starts (ok v, d) = (ok (finish_status v), d)

    unfoldable pub run_with_bridge : ℕ → List LongStart → Option (Result StartError ℕ × Done)
    unfolding bridge_starts
    run_with_bridge fresh_starts bs =
        bridge_starts fresh_starts 1 bs true >>= λ r. some (finish_starts r)
