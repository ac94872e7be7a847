-- ===== src/Lab/Session.antt =====
-- The bridge and the ports of a loopback lab, and its exit status: scripts/lab/
-- midi-clock-loopback-lab.py, and scripts/lab/mtc-loopback-lab.py with the same text. These labs have
-- their own copies of what scripts/lab/lab_midi_common.py has; what the process and the clock do is a
-- recording, and so is whether the lab itself passes. The log is left out.
pub mod Scan
pub mod Shared
use unitor_win64_driver.Base.{
  ℕ, ◌+◌, Bool, true, false, ◌&&◌, not, Option, none, some, List, [], ◌∷◌, Text, codes, Result, ok,
  err, ltb, if◌then◌else◌, contains, any, ◌>>=◌,
}
use unitor_win64_driver.Concurrent
use unitor_win64_driver.Bridge.{Action, launch, StopWorld, stop, both_named}
use unitor_win64_driver.Bridge.Listing.{stress_port_names}

pub data LabError : Type 0 where
  bad_count no_executable enum_failed ready_timeout ports_not_found : LabError
  exited_early : ℕ → LabError

-- The labs' own subset of the failures that are looked for
abbrev pub bridge_fail_needles : List Text
bridge_fail_needles =
    codes "MIDI I/O pump failed"
    ∷ codes "WriteBulk failed"
    ∷ codes "WriteBulk skipped"
    ∷ codes "Host→device WriteBulk"
    ∷ codes "Host->device WriteBulk"
    ∷ codes "Device→host DecodeFromDevice failed"
    ∷ codes "Device→host SendToHost"
    ∷ []

-- One round of the wait: the clock at its test, the exit code if the bridge has gone, and the status
-- and the output of the child that lists the ports
pub record LabPoll : Type 0 where
  pub now : ℕ
  pub gone : Option ℕ
  pub code : ℕ
  pub stdout : Text

-- `_fresh_midi_port_names`, which reads like that of midi-concurrent-in-stress.py
unfoldable pub fresh_port_names : ℕ → Text → Option (List Text × List Text)
unfolding stress_port_names
fresh_port_names code stdout = stress_port_names code stdout

-- `_find_port`, of that text too
unfoldable pub find_port : List Text → Text → Option Text
unfolding Concurrent.find_port
find_port names needle = Concurrent.find_port names needle

abbrev pub look_up :
    Text → Text → Option (List Text × List Text) → Option (Result LabError (Text × Text))
look_up out_needle in_needle none = some (err enum_failed)
look_up out_needle in_needle (some (outs, inns)) =
    both_named (find_port outs out_needle) (find_port inns in_needle) >>= λ names. some (ok names)

abbrev pub poll_found : Text → Text → LabPoll → Option ℕ → Option (Result LabError (Text × Text))
poll_found out_needle in_needle p (some code) = some (err (exited_early code))
poll_found out_needle in_needle p none =
    look_up out_needle in_needle (fresh_port_names p.code p.stdout)

abbrev pub or_later :
    Option (Result LabError (Text × Text))
    → Option (Result LabError (Text × Text))
    → Option (Result LabError (Text × Text))
or_later (some r) later = some r
or_later none later = later

-- `none`: the recording ends before the loop does.
unfoldable pub ready_loop : Text → Text → ℕ → List LabPoll → Option (Result LabError (Text × Text))
unfolding fresh_port_names find_port
ready_loop out_needle in_needle deadline [] = none
ready_loop out_needle in_needle deadline (p ∷ ps) =
    let rest = ready_loop out_needle in_needle deadline ps in
    if ltb p.now deadline
    then or_later (poll_found out_needle in_needle p p.gone) rest
    else some (err ready_timeout)

-- `wait_until_ready`
unfoldable pub wait_until_ready :
    Text → Text → ℕ → ℕ → List LabPoll → Option (Result LabError (Text × Text))
unfolding ready_loop
wait_until_ready out_needle in_needle started timeout polls =
    ready_loop out_needle in_needle (started + timeout) polls

-- `_apply_bridge_fail_needles`, on the whole text that the bridge has printed
unfoldable pub apply_bridge_fail_needles : Text → Bool → Bool
apply_bridge_fail_needles captured passed =
    if any (λ needle. contains needle captured) bridge_fail_needles then false else passed

-- What a run meets: whether it is to start a bridge, the bridge's file, the clock and the polls of
-- the wait, or else one listing of the ports; whether the lab passes; and what the bridge has printed
-- by then and its stop
pub record LabWorld : Type 0 where
  pub with_bridge : Bool
  pub is_file : Bool
  pub started : ℕ
  pub polls : List LabPoll
  pub listed : LabPoll
  pub passed : Bool
  pub captured : Text
  pub stopping : StopWorld

abbrev pub lab_status : Bool → ℕ
lab_status passed = if passed then 0 else 2

-- With a bridge: the rest of `run_lab` behind the wait. The bridge is stopped on every path.
abbrev pub on_bridge : LabWorld → Result LabError (Text × Text) → Result LabError ℕ × List Action
on_bridge w (err e) = (err e, launch ∷ stop true w.stopping)
on_bridge w (ok names) =
    (ok (lab_status (apply_bridge_fail_needles w.captured w.passed)), launch ∷ stop true w.stopping)

-- Without one: `not out_name or not in_name` raises.
abbrev pub on_names : LabWorld → Option (Text × Text) → Result LabError ℕ
on_names w none = err ports_not_found
on_names w (some names) = ok (lab_status w.passed)

abbrev pub on_listing : Text → Text → LabWorld → Option (List Text × List Text) → Result LabError ℕ
on_listing out_port in_port w none = err enum_failed
on_listing out_port in_port w (some (outs, inns)) =
    on_names w (both_named (find_port outs out_port) (find_port inns in_port))

-- `run_lab`, on a count of clocks or of time frames; the wait has 45 seconds.
unfoldable pub run_lab : Text → Text → ℕ → LabWorld → Option (Result LabError ℕ × List Action)
unfolding wait_until_ready fresh_port_names find_port apply_bridge_fail_needles stop
run_lab out_port in_port count w =
    let bridged =
      wait_until_ready out_port in_port w.started 45000 w.polls >>= λ r. some (on_bridge w r) in
    let plain = on_listing out_port in_port w (fresh_port_names w.listed.code w.listed.stdout) in
    if ltb count 1
    then some (err bad_count, [])
    else if w.with_bridge
    then (if w.is_file then bridged else some (err no_executable, []))
    else some (plain, [])
