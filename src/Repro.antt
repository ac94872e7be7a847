-- ===== src/Repro.antt =====
-- scripts/lab/wms-midisrv-restart-repro.py: a bridge session, an enumeration behind its stop, and the
-- recovery with one clean bridge. What the processes, the service and the clock do is a recording.
-- The journal and the evidence file are left out, but for the classification.
pub mod Recovery
use unitor_win64_driver.Base.{
  ℕ, Bool, true, false, ◌&&◌, ◌||◌, not, Option, none, some, List, [], ◌∷◌, ◌++◌, Text, Result, ok,
  err, length, ◌==◌, if◌then◌else◌, ◌>>=◌,
}
use unitor_win64_driver.Ports.{PortError, select_port}
use unitor_win64_driver.Bridge.{
  ReadyPoll, ReadyError, Action, launch, StopWorld, stop, StartError, no_executable, not_ready,
  bridge_fail_lines, wait_until_ready, start_one_clean_wms_bridge,
}
use unitor_win64_driver.Bridge.Listing.{
  Enumeration, EnumFailure, MidiEnumResult, FreshError, enumerate_midi_ports, fresh_midi_port_names,
}

pub record Args : Type 0 where
  pub matrix_out : Text
  pub matrix_in : Text
  pub long_out : Text
  pub long_in : Text
  pub bridge_ready_timeout : ℕ
  pub apply_midisrv_reset : Bool
  pub one_clean_bridge : Bool
  pub recover_only : Bool

-- An exit code: none, a signal (negative) or a status
pub data ExitCode : Type 0 where
  still_running by_signal : ExitCode
  status : ℕ → ExitCode

pub record ReproOutcome : Type 0 where
  pub enum_timed_out : Bool
  pub enum_ok : Bool
  pub bridge_exit_code : ExitCode
  pub path_c_ok : Bool
  pub path_c_documented_only : Bool
  pub path_c_attempted_recovery : Bool

abbrev pub new_outcome : ReproOutcome
new_outcome = record {
  enum_timed_out = false;
  enum_ok = false;
  bridge_exit_code = still_running;
  path_c_ok = false;
  path_c_documented_only = false;
  path_c_attempted_recovery = false;
}

pub data Cause : Type 0 where
  no_fault midisrv_provisional teardown_suspect undetermined : Cause

abbrev pub is_signal : ExitCode → Bool
is_signal still_running = false
is_signal by_signal = true
is_signal (status code) = false

-- `_bridge_teardown_looks_healthy`, on the text of the log, empty where there is none
unfoldable pub bridge_teardown_looks_healthy : Text → ExitCode → Bool
unfolding bridge_fail_lines
bridge_teardown_looks_healthy log code =
    if is_signal code then false else length (bridge_fail_lines log) == 0

unfoldable pub classify_cause : ReproOutcome → Text → Cause
unfolding bridge_teardown_looks_healthy
classify_cause o log =
    let teardown_ok = bridge_teardown_looks_healthy log o.bridge_exit_code in
    if not o.enum_timed_out && o.enum_ok
    then no_fault
    else if o.enum_timed_out && teardown_ok
    then midisrv_provisional
    else if o.enum_timed_out && not teardown_ok
    then teardown_suspect
    else undetermined

-- Why a `SystemExit` leaves a step
pub data Interrupt : Type 0 where
  not_started : StartError → Interrupt
  not_enumerated : FreshError → Interrupt
  no_port : PortError → Interrupt
  service_unhealthy : Interrupt

-- `fresh_midi_port_names`, and `select_port` for each needle in turn
abbrev pub select_all : List Text → List Text → Result Interrupt Unit
select_all names [] = ok tt
select_all names (needle ∷ needles) =
    let rest = select_all names needles in
    elim (select_port names needle) [ err e ↦ err (no_port e) | ok name ↦ rest ]

abbrev pub and_then : Result Interrupt Unit → Result Interrupt Unit → Result Interrupt Unit
and_then (err e) r = err e
and_then (ok u) r = r

abbrev pub confirm :
    List Text → List Text → Result FreshError (List Text × List Text) → Result Interrupt Unit
confirm out_needles in_needles (err e) = err (not_enumerated e)
confirm out_needles in_needles (ok (outs, inns)) =
    and_then (select_all outs out_needles) (select_all inns in_needles)

-- What path A meets: the file of the bridge, the clock at the start of the wait, its polls, the
-- enumeration during the session, what `stop` meets, the exit code, and the enumeration behind it
pub record PathA : Type 0 where
  pub is_file : Bool
  pub started : ℕ
  pub polls : List ReadyPoll
  pub live : Enumeration
  pub stopping : StopWorld
  pub code : ExitCode
  pub enumerated : Enumeration

abbrev pub is_none : Option EnumFailure → Bool
is_none none = true
is_none (some e) = false

-- From the wait for the ports on
abbrev pub path_a_ready :
    Args
    → PathA
    → ReproOutcome
    → Result ReadyError (Text × Text)
    → Result Interrupt ReproOutcome × List Action
path_a_ready args a o (err e) = (err (not_started (not_ready e)), launch ∷ stop true a.stopping)
path_a_ready args a o (ok names) =
    let result = enumerate_midi_ports a.enumerated in
    elim (confirm (args.long_out ∷ []) (args.long_in ∷ []) (fresh_midi_port_names a.live)) [
      | err e ↦ (err e, launch ∷ stop true a.stopping)
      | ok u ↦ (
        ok (record o {
          enum_timed_out = result.timed_out;
          enum_ok = is_none result.failure;
          bridge_exit_code = a.code;
        }),
        launch ∷ stop true a.stopping,
      )
    ]

unfoldable pub run_path_a :
    Args → PathA → ReproOutcome → Option (Result Interrupt ReproOutcome × List Action)
unfolding wait_until_ready enumerate_midi_ports fresh_midi_port_names stop
run_path_a args a o =
    let launched =
      wait_until_ready args.matrix_out args.matrix_in a.started args.bridge_ready_timeout a.polls
      >>= λ r. some (path_a_ready args a o r) in
    if a.is_file then launched else some (err (not_started no_executable), [])

-- What path C meets: whether the reset works, the probe, and the clean start with what follows it
pub record PathC : Type 0 where
  pub reset_ok : Bool
  pub probe : Enumeration
  pub is_file : Bool
  pub started : ℕ
  pub polls : List ReadyPoll
  pub aborting : StopWorld
  pub live : Enumeration
  pub stopping : StopWorld

-- Whether the recovery is a success, from the confirmation of the ports on. On failure the `finally`
-- stops the session.
abbrev pub settled : PathC → List Action → Result Interrupt Unit → Bool × List Action
settled c actions (err e) = (false, actions ++ stop true c.stopping)
settled c actions (ok u) = (true, actions ++ stop true c.stopping)

abbrev pub recovered :
    Args → PathC → Result StartError (Text × Text) × List Action → Bool × List Action
recovered args c (err e, actions) = (false, actions)
recovered args c (ok names, actions) = settled c actions (
    confirm (args.matrix_out ∷ args.long_out ∷ []) (args.matrix_in ∷ args.long_in ∷ [])
      (fresh_midi_port_names c.live))

unfoldable pub one_clean_bridge : Args → PathC → Option (Bool × List Action)
unfolding start_one_clean_wms_bridge fresh_midi_port_names stop
one_clean_bridge args c =
    start_one_clean_wms_bridge c.is_file args.matrix_out args.matrix_in c.started
      args.bridge_ready_timeout c.polls c.aborting
    >>= λ r. some (recovered args c r)

abbrev pub is_healthy : MidiEnumResult → Bool
is_healthy r = not (r.timed_out || not (is_none r.failure))

abbrev pub attempted : ReproOutcome → Bool → ReproOutcome
attempted o ok_ = record o { path_c_attempted_recovery = true; path_c_ok = ok_ }

unfoldable pub run_path_c : Args → PathC → ReproOutcome → Option (ReproOutcome × List Action)
unfolding one_clean_bridge enumerate_midi_ports
run_path_c args c o =
    let reset_applied_ok = args.apply_midisrv_reset && c.reset_ok in
    let noted =
      if args.apply_midisrv_reset then record o { path_c_attempted_recovery = true } else o in
    let bridged = one_clean_bridge args c >>= λ r. some (attempted noted r.0, r.1) in
    if args.apply_midisrv_reset && not c.reset_ok
    then some (record noted { path_c_ok = false }, [])
    else if not args.one_clean_bridge
    then some (record noted { path_c_documented_only = true; path_c_ok = false }, [])
    else if not reset_applied_ok && not (is_healthy (enumerate_midi_ports c.probe))
    then some (attempted noted false, [])
    else bridged

abbrev pub status_of : ReproOutcome → ℕ
status_of o = if o.path_c_ok then 0 else 2

abbrev pub by_path_c :
    Option (ReproOutcome × List Action) → Option (Result Interrupt (ℕ × ReproOutcome))
by_path_c c = c >>= λ r. some (ok (status_of r.0, r.0))

-- Behind path A: path C where it is asked for or the enumeration timed out
abbrev pub finish : ReproOutcome → Result Interrupt (ℕ × ReproOutcome)
finish o = ok (if o.path_c_attempted_recovery && not o.path_c_ok then 2 else 0, o)

abbrev pub after_path_a :
    Args
    → PathC
    → Result Interrupt ReproOutcome × List Action
    → Option (Result Interrupt (ℕ × ReproOutcome))
after_path_a args c (err e, actions) = some (err e)
after_path_a args c (ok o, actions) =
    let recover = run_path_c args c o >>= λ r. some (finish r.0) in
    if o.enum_timed_out || args.apply_midisrv_reset || args.one_clean_bridge
    then recover
    else some (finish (record o { path_c_documented_only = false; path_c_ok = true }))

-- `run_repro`: the status that it returns with the outcome, or the exception
unfoldable pub run_repro :
    Args → Bool → PathA → PathC → Option (Result Interrupt (ℕ × ReproOutcome))
unfolding run_path_a run_path_c
run_repro args midisrv_ok a c =
    if not midisrv_ok
    then (if args.apply_midisrv_reset
        then by_path_c (run_path_c args c new_outcome)
        else some (err service_unhealthy))
    else if args.recover_only
    then by_path_c (run_path_c args c new_outcome)
    else (run_path_a args a new_outcome >>= λ r. after_path_a args c r)
