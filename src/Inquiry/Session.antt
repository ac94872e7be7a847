-- ===== src/Inquiry/Session.antt =====
-- The bridge, the ports and the exit status of scripts/lab/device-inquiry-loop.py. Its ports, its wait
-- and its stop have the texts of scripts/lab/lab_midi_common.py. The lab itself is a child process of
-- the run with a bridge, on the options that its command line names. The log is left out.
pub mod Status
use unitor_win64_driver.Base.{
  ℕ, Bool, true, false, ◌||◌, Option, none, some, List, [], ◌∷◌, Text, Result, ok, err, ltb, leb,
  if◌then◌else◌, ◌>>=◌,
}
use unitor_win64_driver.Ports.{PortError, select_port}
use unitor_win64_driver.Bridge
use unitor_win64_driver.Bridge.{Action, launch, StopWorld, stop, ReadyError, ReadyPoll}
use unitor_win64_driver.Inquiry.{InquiryLoopOpts, Cycle, run_inquiry_loop}

-- The options of the script, with times in milliseconds
pub record InquiryArgs : Type 0 where
  pub list_ports : Bool
  pub with_bridge : Bool
  pub bridge_ready_timeout : ℕ
  pub out_port : Text
  pub in_port : Text
  pub count : ℕ
  pub interval : ℕ
  pub reply_timeout : ℕ
  pub pass_percent : ℕ

pub data InquiryError : Type 0 where
  bad_count bad_interval bad_reply_timeout bad_ready_timeout no_executable : InquiryError
  no_output no_input : PortError → InquiryError
  not_ready : ReadyError → InquiryError

-- What the run meets: the bridge's file, the clock, the polls of the wait and the stop; and, in the
-- process that opens the ports, the names of the outputs and of the inputs and the inquiries
pub record InquiryWorld : Type 0 where
  pub is_file : Bool
  pub started : ℕ
  pub polls : List ReadyPoll
  pub stopping : StopWorld
  pub outs : List Text
  pub inns : List Text
  pub cycles : List Cycle

unfoldable pub loop_opts : InquiryArgs → InquiryLoopOpts
loop_opts a = record {
  count = a.count;
  interval = a.interval;
  reply_timeout = a.reply_timeout;
  pass_percent = a.pass_percent;
}

-- What the child's parser makes of the command line: the defaults but for the options on it
unfoldable pub child_args : InquiryArgs → InquiryArgs
child_args a = record a { list_ports = false; with_bridge = false; bridge_ready_timeout = 45000 }

abbrev pub inquiry_status : Bool → ℕ
inquiry_status passed = if passed then 0 else 2

-- The checks of `main`, in its order
unfoldable pub first_error : InquiryArgs → Option InquiryError
first_error a =
    if ltb a.count 1
    then some bad_count
    else if leb a.interval 0
    then some bad_interval
    else if leb a.reply_timeout 0
    then some bad_reply_timeout
    else if leb a.bridge_ready_timeout 0
    then some bad_ready_timeout
    else none

abbrev pub on_loop : InquiryArgs → List Cycle → Option (Result InquiryError ℕ)
on_loop a cycles =
    run_inquiry_loop (loop_opts a) cycles >>= λ (s, passed). some (ok (inquiry_status passed))

abbrev pub on_input :
    InquiryArgs → List Cycle → Result PortError Text → Option (Result InquiryError ℕ)
on_input a cycles (err e) = some (err (no_input e))
on_input a cycles (ok in_name) = on_loop a cycles

abbrev pub on_output :
    InquiryArgs → InquiryWorld → Result PortError Text → Option (Result InquiryError ℕ)
on_output a w (err e) = some (err (no_output e))
on_output a w (ok out_name) = on_input a w.cycles (select_port w.inns a.in_port)

-- `run_lab` without a bridge; `none`: the recording of a wait ends before the wait does.
unfoldable pub run_plain : InquiryArgs → InquiryWorld → Option (Result InquiryError ℕ)
unfolding select_port run_inquiry_loop loop_opts
run_plain a w =
    let picked = on_output a w (select_port w.outs a.out_port) in
    if a.list_ports then some (ok 0) else picked

-- `main` of a process that is not to start a bridge
unfoldable pub checked_plain : InquiryArgs → InquiryWorld → Option (Result InquiryError ℕ)
unfolding run_plain
checked_plain a w = elim (first_error a) [ none ↦ run_plain a w | some e ↦ some (err e) ]

-- The exit status of a process: an exception ends it with 1.
abbrev pub exit_code : Result InquiryError ℕ → ℕ
exit_code (ok code) = code
exit_code (err e) = 1

-- `_run_midi_lab_in_fresh_process`
unfoldable pub run_midi_lab_in_fresh_process : InquiryArgs → InquiryWorld → Option ℕ
unfolding checked_plain child_args
run_midi_lab_in_fresh_process a w = checked_plain (child_args a) w >>= λ r. some (exit_code r)

-- Behind the wait: the bridge is stopped on every path.
abbrev pub on_ready :
    InquiryArgs
    → InquiryWorld
    → Result ReadyError (Text × Text)
    → Option (Result InquiryError ℕ × List Action)
on_ready a w (err e) = some (err (not_ready e), launch ∷ stop true w.stopping)
on_ready a w (ok names) =
    run_midi_lab_in_fresh_process a w >>= λ code. some (ok code, launch ∷ stop true w.stopping)

-- `run_lab`, and what has been done to the bridge
unfoldable pub run_lab : InquiryArgs → InquiryWorld → Option (Result InquiryError ℕ × List Action)
unfolding Bridge.wait_until_ready stop run_plain run_midi_lab_in_fresh_process
run_lab a w =
    let bridged =
      Bridge.wait_until_ready a.out_port a.in_port w.started a.bridge_ready_timeout w.polls >>= λ r.
      on_ready a w r in
    let plain = run_plain a w >>= λ r. some (r, []) in
    if a.list_ports
    then some (ok 0, [])
    else if a.with_bridge
    then (if w.is_file then bridged else some (err no_executable, []))
    else plain

unfoldable pub main : InquiryArgs → InquiryWorld → Option (Result InquiryError ℕ × List Action)
unfolding run_lab
main a w = elim (first_error a) [ none ↦ run_lab a w | some e ↦ some (err e, []) ]
