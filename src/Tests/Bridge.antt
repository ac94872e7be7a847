-- ===== src/Tests/Bridge.antt =====
-- The bridge process: a listing of two cables, a wait of three polls, and the recovery.
use unitor_win64_driver.Base.{
  ℕ, ◌≡◌, refl, true, false, none, some, List, [], ◌∷◌, Text, Result, codes, ok, arith, is_space,
  All, ◌&&◌, not, any,
}
use unitor_win64_driver.Quality.Lines.{is_line_break, splitlines}
use unitor_win64_driver.Bridge.{
  ReadyPoll, Action, StopWorld, StartError, wait_until_ready, start_one_clean_wms_bridge,
}
use unitor_win64_driver.Bridge.Listing.{returned, timeout_expired, fresh_midi_port_names, listing}
use unitor_win64_driver.Bridge.Fresh.{IsPortName, fresh_midi_port_names-listing}
use unitor_win64_driver.Bridge.Ready.{Ended, Expires, now, later, Waits, wait_until_ready-Waits}
use unitor_win64_driver.Lab.Session
use unitor_win64_driver.Lab.Session.Scan
use unitor_win64_driver.Lab.Session.Shared
use unitor_win64_driver.Bridge.Clean.{IsClean, start_one_clean_wms_bridge-IsClean}
use unitor_win64_driver.Repro.{Args, ReproOutcome, new_outcome, PathC, run_path_c}
use unitor_win64_driver.Repro.Recovery.{IsRecovery, run_path_c-IsRecovery}

abbrev out1 : Text
out1 = codes "Out"

abbrev in1 : Text
in1 = codes "In"

out1-IsPortName : IsPortName out1
unfolding is_space is_line_break
out1-IsPortName = record { not_blank = refl; unbroken = (refl, (refl, (refl, tt))) }

in1-IsPortName : IsPortName in1
unfolding is_space is_line_break
in1-IsPortName = record { not_blank = refl; unbroken = (refl, (refl, tt)) }

fresh_midi_port_names-listing_example :
    fresh_midi_port_names (returned 0 (listing (out1 ∷ []) (in1 ∷ []))) ≡ ok (out1 ∷ [], in1 ∷ [])
fresh_midi_port_names-listing_example =
    fresh_midi_port_names-listing (out1 ∷ []) (in1 ∷ []) (out1-IsPortName, tt) (in1-IsPortName, tt)
      (refl, tt)

abbrev poll0 : ReadyPoll
poll0 = record { now = 0; gone = none; enumerated = returned 0 (listing [] []) }

abbrev poll1 : ReadyPoll
poll1 = record { now = 500; gone = none; enumerated = returned 0 (listing (out1 ∷ []) (in1 ∷ [])) }

abbrev poll2 : ReadyPoll
poll2 = record { now = 3000; gone = none; enumerated = timeout_expired }

abbrev polls : List ReadyPoll
polls = poll0 ∷ poll1 ∷ poll2 ∷ []

polls-Expires : Expires 2000 polls
polls-Expires = later (later (now (omega arith)))

wait_until_ready-Waits_example :
    (r : Ended) × (wait_until_ready out1 in1 0 2000 polls ≡ some r) × Waits out1 in1 2000 polls r
wait_until_ready-Waits_example = wait_until_ready-Waits out1 in1 0 2000 polls-Expires

abbrev stopping : StopWorld
stopping = record {
  alive = true;
  signal_raises = false;
  gone_in_grace = false;
  gone_after_terminate = false;
}

start_one_clean_wms_bridge-IsClean_example :
    (r : Ended) × (outcome : Result StartError (Text × Text)) × (actions : List Action)
    × (start_one_clean_wms_bridge true out1 in1 0 2000 polls stopping ≡ some (outcome, actions))
    × Waits out1 in1 2000 polls r
    × IsClean stopping r outcome actions
start_one_clean_wms_bridge-IsClean_example =
    start_one_clean_wms_bridge-IsClean out1 in1 0 2000 stopping polls-Expires

abbrev args : Args
args = record {
  matrix_out = out1;
  matrix_in = in1;
  long_out = out1;
  long_in = in1;
  bridge_ready_timeout = 2000;
  apply_midisrv_reset = true;
  one_clean_bridge = true;
  recover_only = false;
}

abbrev recovery : PathC
recovery = record {
  reset_ok = true;
  probe = timeout_expired;
  is_file = true;
  started = 0;
  polls = polls;
  aborting = stopping;
  live = returned 0 (listing (out1 ∷ []) (in1 ∷ []));
  stopping = stopping;
}

run_path_c-IsRecovery_example :
    (s : ReproOutcome × List Action) × (run_path_c args recovery new_outcome ≡ some s)
    × IsRecovery args recovery s
run_path_c-IsRecovery_example = run_path_c-IsRecovery args recovery new_outcome polls-Expires

abbrev round : ℕ → List Text → List Text → Shared.Round
round t outs inns = record { now = t; gone = none; outs = outs; inns = inns }

abbrev rounds : List Shared.Round
rounds = round 0 [] [] ∷ round 500 (out1 ∷ []) (in1 ∷ []) ∷ []

rounds-IsListed : All Shared.IsListed rounds
rounds-IsListed = (
  record { outs_named = tt; inns_named = tt; outs_unmarked = tt; inns_unmarked = tt },
  (
    record {
      outs_named = (out1-IsPortName, tt);
      inns_named = (in1-IsPortName, tt);
      outs_unmarked = ((refl, refl), tt);
      inns_unmarked = ((refl, refl), tt);
    },
    tt,
  ),
)

wait_until_ready-shared_example :
    Session.wait_until_ready out1 in1 0 45000 (Shared.lab_polls rounds)
    ≡ Shared.as_lab (wait_until_ready out1 in1 0 45000 (Shared.ready_polls rounds))
wait_until_ready-shared_example =
    Shared.wait_until_ready-shared out1 in1 0 45000 rounds rounds-IsListed

-- The second line of the output has a failure.
abbrev output : Text
output = codes "bridge up\nWriteBulk failed: 5\nbridge down\n"

apply_bridge_fail_needles-splitlines_example :
    Session.apply_bridge_fail_needles output true
    ≡ (true && not (any Scan.has_failure (splitlines output)))
apply_bridge_fail_needles-splitlines_example = Scan.apply_bridge_fail_needles-splitlines output true
