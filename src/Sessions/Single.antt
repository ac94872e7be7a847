-- ===== src/Sessions/Single.antt =====
-- One session in this process, and the choice between it and the fresh ones: `run_lab` and
-- `_run_single_midi_session` of scripts/lab/sysex-matrix-mid-loop.py, sysex-matrix-bank-loop.py and
-- sysex-long-loopback.py. The lists of ports and the messages are recordings; the log file is left
-- out.
use unitor_win64_driver.Base.{
  ℕ, Bool, true, ◌&&◌, not, Option, some, List, Text, Bytes, Result, ok, err, ltb, if◌then◌else◌,
  ◌>>=◌,
}
use unitor_win64_driver.Ports.{PortError, select_port}
use unitor_win64_driver.Sysex.Frame.{FrameError}
use unitor_win64_driver.Scenario.{
  ScenarioStats, DumpRound, Session, run_all_scenarios, run_bank_burst, passes,
}
use unitor_win64_driver.Loopback.{LoopbackArgs, AbortReason, Trial, run_loopback_session}
use unitor_win64_driver.Sessions.Long.{exit_aborted}

pub data LabMode : Type 0 where
  bridge_mode fresh_mode single_mode : LabMode

-- The end of `run_lab`, from `with_bridge`, `fresh_sessions` and `append_log`
unfoldable pub lab_mode : Bool → ℕ → Bool → LabMode
lab_mode with_bridge fresh_sessions append_log =
    if with_bridge
    then bridge_mode
    else if ltb 1 fresh_sessions && not append_log
    then fresh_mode
    else single_mode

pub data SessionError : Type 0 where
  no_port : PortError → SessionError
  bad_frame : FrameError → SessionError

-- What the scenarios come to, behind the choice of both ports
abbrev pub on_ports :
    Result PortError Text
    → Result PortError Text
    → Option (Result SessionError ℕ)
    → Option (Result SessionError ℕ)
on_ports (err e) inn run = some (err (no_port e))
on_ports (ok out) (err e) run = some (err (no_port e))
on_ports (ok out) (ok inn) run = run

-- `0 if all_ok else 2`
abbrev pub session_status : Bool → ℕ
session_status all_ok = if all_ok then 0 else 2

abbrev pub mid_status : Result FrameError (List ScenarioStats × Bool) → Result SessionError ℕ
mid_status (err e) = err (bad_frame e)
mid_status (ok (stats, all_ok)) = ok (session_status all_ok)

abbrev pub bank_status : ℕ → Result FrameError ScenarioStats → Result SessionError ℕ
bank_status pass_percent (err e) = err (bad_frame e)
bank_status pass_percent (ok s) = ok (session_status (passes pass_percent s))

abbrev pub long_status : Result AbortReason Bool → Result SessionError ℕ
long_status (err reason) = ok exit_aborted
long_status (ok all_ok) = ok (session_status all_ok)

module _ (outs inns : List Text) (out_port in_port : Text) where
  abbrev pub with_ports : Option (Result SessionError ℕ) → Option (Result SessionError ℕ)
  with_ports run = on_ports (select_port outs out_port) (select_port inns in_port) run

  unfoldable pub run_mid_session : Session → Option (Result SessionError ℕ)
  unfolding run_all_scenarios select_port
  run_mid_session x = with_ports (run_all_scenarios x >>= λ r. some (mid_status r))

  unfoldable pub run_bank_session : ℕ → ℕ → ℕ → List DumpRound → Option (Result SessionError ℕ)
  unfolding run_bank_burst select_port
  run_bank_session start_slot reply_timeout pass_percent rounds =
      with_ports
        (run_bank_burst start_slot reply_timeout rounds >>= λ r. some (bank_status pass_percent r))

  unfoldable pub run_long_session :
      LoopbackArgs → Option ℕ → List (Bytes × List Trial) → Option (Result SessionError ℕ)
  unfolding run_loopback_session select_port
  run_long_session args deadline plan =
      with_ports (run_loopback_session args deadline true plan >>= λ r. some (long_status r))
