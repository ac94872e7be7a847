-- ===== src/Bridge.antt =====
-- The bridge as a child process: `bridge_fail_lines`, `BridgeSession` and
-- `start_one_clean_wms_bridge` of scripts/lab/lab_midi_common.py. What the process and the clock do
-- is a recording; a method returns what it has done. The reader thread is left out: what it has
-- captured is the list of lines.
pub mod Listing
pub mod Fresh
pub mod Modes
pub mod Ready
pub mod Clean
use unitor_win64_driver.Base.{
  ℕ, ◌+◌, Bool, true, false, ◌&&◌, ◌||◌, not, Option, none, some, List, [], ◌∷◌, ◌++◌, Text, codes,
  Result, ok, err, ltb, if◌then◌else◌, equal, contains, any, rstrip, ◌>>=◌,
}
use unitor_win64_driver.Quality.Lines.{splitlines}
use unitor_win64_driver.Ports.{find_port}
use unitor_win64_driver.Bridge.Listing.{Enumeration, FreshError, fresh_midi_port_names}

-- `BRIDGE_FAIL_NEEDLES`
abbrev pub bridge_fail_needles : List Text
bridge_fail_needles =
    codes "MIDI I/O pump failed"
    ∷ codes "WriteBulk failed"
    ∷ codes "WriteBulk skipped"
    ∷ codes "Host→device WriteBulk"
    ∷ codes "Host->device WriteBulk"
    ∷ codes "deliver queue full"
    ∷ codes "IN demux failed during host"
    ∷ codes "Device→host DecodeFromDevice failed"
    ∷ codes "Device→host SendToHost"
    ∷ []

-- One hit for a line, whichever and however many needles it holds
unfoldable pub fail_hits : List Text → List Text
fail_hits [] = []
fail_hits (line ∷ lines) =
    let rest = fail_hits lines in
    if any (λ needle. contains needle line) bridge_fail_needles then rstrip line ∷ rest else rest

unfoldable pub bridge_fail_lines : Text → List Text
unfolding splitlines fail_hits
bridge_fail_lines text = fail_hits (splitlines text)

-- One round of `wait_until_ready`: the clock at its test, the exit code if the bridge has gone, and
-- the enumeration of the ports
pub record ReadyPoll : Type 0 where
  pub now : ℕ
  pub gone : Option ℕ
  pub enumerated : Enumeration

pub data ReadyError : Type 0 where
  exited_early : ℕ → ReadyError
  enum_failed : FreshError → ReadyError
  ready_timeout : ReadyError

-- `if out_name and in_name`: found, and not the empty text
abbrev pub is_named : Option Text → Bool
is_named none = false
is_named (some []) = false
is_named (some (c ∷ cs)) = true

abbrev pub both_named : Option Text → Option Text → Option (Text × Text)
both_named none inn = none
both_named (some out) none = none
both_named (some out) (some inn) =
    if is_named (some out) && is_named (some inn) then some (out, inn) else none

-- What one round decides, if anything
abbrev pub look_up :
    Text
    → Text
    → Result FreshError (List Text × List Text)
    → Option (Result ReadyError (Text × Text))
look_up out_needle in_needle (err e) = some (err (enum_failed e))
look_up out_needle in_needle (ok (outs, inns)) =
    both_named (find_port outs out_needle) (find_port inns in_needle) >>= λ names. some (ok names)

unfoldable pub poll_round : Text → Text → ReadyPoll → Option (Result ReadyError (Text × Text))
unfolding fresh_midi_port_names
poll_round out_needle in_needle p = elim p.gone [
  | some code ↦ some (err (exited_early code))
  | none ↦ look_up out_needle in_needle (fresh_midi_port_names p.enumerated)
]

-- `none`: the recording ends before the loop does.
unfoldable pub ready_loop :
    Text → Text → ℕ → List ReadyPoll → Option (Result ReadyError (Text × Text))
unfolding poll_round
ready_loop out_needle in_needle deadline [] = none
ready_loop out_needle in_needle deadline (p ∷ ps) =
    let rest = ready_loop out_needle in_needle deadline ps in
    let after : Option (Result ReadyError (Text × Text)) =
      elim (poll_round out_needle in_needle p) [ none ↦ rest | some r ↦ some r ] in
    if ltb p.now deadline then after else some (err ready_timeout)

unfoldable pub wait_until_ready :
    Text → Text → ℕ → ℕ → List ReadyPoll → Option (Result ReadyError (Text × Text))
unfolding ready_loop
wait_until_ready out_needle in_needle started timeout polls =
    ready_loop out_needle in_needle (started + timeout) polls

-- What is done to the process
pub data Action : Type 0 where
  launch break_signal terminate kill : Action

-- What `stop` meets: whether the process is alive, whether the signal raises, and whether it has
-- exited by the end of the grace time and of the three seconds behind `terminate`
pub record StopWorld : Type 0 where
  pub alive : Bool
  pub signal_raises : Bool
  pub gone_in_grace : Bool
  pub gone_after_terminate : Bool

-- `BridgeSession.stop`, on a process that has been started or not
unfoldable pub stop : Bool → StopWorld → List Action
stop started w =
    let signalled : List Action = if w.signal_raises then terminate ∷ [] else break_signal ∷ [] in
    let rest : List Action =
      if w.gone_in_grace
      then []
      else terminate ∷ (if w.gone_after_terminate then [] else kill ∷ []) in
    if not started || not w.alive then [] else signalled ++ rest

pub data StartError : Type 0 where
  no_executable : StartError
  not_ready : ReadyError → StartError

-- `start_one_clean_wms_bridge`: the session's port names or the exception, and what has been done
abbrev pub clean_outcome :
    StopWorld → Result ReadyError (Text × Text) → Result StartError (Text × Text) × List Action
clean_outcome w (ok names) = (ok names, launch ∷ [])
clean_outcome w (err e) = (err (not_ready e), launch ∷ stop true w)

unfoldable pub start_one_clean_wms_bridge :
    Bool
    → Text
    → Text
    → ℕ
    → ℕ
    → List ReadyPoll
    → StopWorld
    → Option (Result StartError (Text × Text) × List Action)
unfolding wait_until_ready stop
start_one_clean_wms_bridge is_file out_needle in_needle started timeout polls w =
    let launched = wait_until_ready out_needle in_needle started timeout polls >>= λ r.
    some (clean_outcome w r) in
    if is_file then launched else some (err no_executable, [])
