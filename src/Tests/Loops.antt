-- ===== src/Tests/Loops.antt =====
-- Theorems of the inquiry loop, the long loopback and the scenarios at short recordings.
use unitor_win64_driver.Base.{
  ◌≤◌, ◌≡◌, refl, arith, ok, true, false, none, some, List, [], ◌∷◌, Bytes, Text, codes, is_space,
  to_lower, length, All,
}
use unitor_win64_driver.Midi.{Message, Poll}
use unitor_win64_driver.Sysex.Frame.{framed}
use unitor_win64_driver.Sysex.Wait.Laws.{now, later}
use unitor_win64_driver.Inquiry.{InquiryLoopOpts, Cycle, LoopState, rate_passes, run_inquiry_loop}
use unitor_win64_driver.Inquiry.Counters.{
  IsRecorded, answered, answered_late, run_inquiry_loop-answered,
}
use unitor_win64_driver.Bridge.{launch, break_signal, stop, wait_until_ready}
use unitor_win64_driver.Bridge.Listing.{returned, listing}
use unitor_win64_driver.Ports.{
  select_port, find_port, port_match_rank, normalize_port_label, rsplit_space,
}
use unitor_win64_driver.Inquiry.Session.{InquiryArgs, InquiryWorld, loop_opts, main}
use unitor_win64_driver.Inquiry.Session.Status.{
  IsAccepted, IsAnswerable, IsReady, answered_status, main-answered,
}
use unitor_win64_driver.Loopback.{LoopbackArgs, Trial, ScenarioStats, run_payload_trials}
use unitor_win64_driver.Loopback.Trials
use unitor_win64_driver.Loopback.Trials.{is_some, outcomes}
use unitor_win64_driver.Loopback.Runs.{aborts_on}
use unitor_win64_driver.Loopback.Aborts.{run_payload_trials-aborts_on}

abbrev identity : Message
identity = record { kind = codes "sysex"; payload = 0x7E ∷ 0 ∷ 0x06 ∷ 0x02 ∷ 0x10 ∷ []; raw = [] }

-- A reply, and the end of the wait
abbrev replied : List Poll
replied =
    record { now = 0; pending = identity ∷ []; stamp = 1 }
    ∷ record { now = 900; pending = []; stamp = 901 }
    ∷ []

-- Nothing until the end of the wait
abbrev silent : List Poll
silent = record { now = 900; pending = []; stamp = 901 } ∷ []

abbrev opts : InquiryLoopOpts
opts = record { count = 2; interval = 600; reply_timeout = 500; pass_percent = 95 }

-- One inquiry is answered in time, and one in the slack.
abbrev cycles : List Cycle
cycles =
    record {
      cycle_started = 0;
      first_started = 0;
      first_polls = replied;
      slack_now = 0;
      late_started = 0;
      late_polls = silent;
    }
    ∷ record {
      cycle_started = 0;
      first_started = 0;
      first_polls = silent;
      slack_now = 0;
      late_started = 0;
      late_polls = replied;
    }
    ∷ []

cycles-IsRecorded : All (IsRecorded opts) cycles
cycles-IsRecorded = (
  record { first_ends = later (now (ground arith)); late_ends = now (ground arith) },
  (record { first_ends = now (ground arith); late_ends = later (now (ground arith)) }, tt),
)

run_inquiry_loop-answered_example :
    (s : LoopState) × (run_inquiry_loop opts cycles
      ≡ some (s, rate_passes (answered opts cycles) 2 95))
    × (s.replies ≡ answered opts cycles)
    × (s.late_replies ≡ answered_late opts cycles)
    × (length s.sent ≡ 2)
    × (s.late_replies ≤ s.replies)
    × (s.replies ≤ 2)
run_inquiry_loop-answered_example = run_inquiry_loop-answered opts cycles refl cycles-IsRecorded

abbrev args : LoopbackArgs
args = record { reply_timeout = 500; abort_after_timeouts = 2; pass_percent = 95 }

abbrev payload : Bytes
payload = framed (0x7E ∷ 0 ∷ 0x06 ∷ 0x02 ∷ 0x10 ∷ [])

-- A match, a send that fails and a wait in vain
abbrev trials : List Trial
trials =
    record { checked = 0; port_raises = false; started = 0; polls = replied }
    ∷ record { checked = 0; port_raises = true; started = 0; polls = silent }
    ∷ record { checked = 0; port_raises = false; started = 0; polls = silent }
    ∷ []

trials-IsRecorded : All (Trials.IsRecorded args payload) trials
trials-IsRecorded = (later (now (ground arith)), (now (ground arith), (now (ground arith), tt)))

run_payload_trials-aborts_on_example :
    (s : ScenarioStats) × (run_payload_trials args none payload trials ≡ some s)
    × (is_some s.abort_reason ≡ aborts_on 2 (outcomes args payload trials))
run_payload_trials-aborts_on_example =
    run_payload_trials-aborts_on args payload trials trials-IsRecorded

abbrev inquiry_args : InquiryArgs
inquiry_args = record {
  list_ports = false;
  with_bridge = true;
  bridge_ready_timeout = 45000;
  out_port = codes "MT4 Out 1";
  in_port = codes "MT4 In 1";
  count = 2;
  interval = 600;
  reply_timeout = 500;
  pass_percent = 95;
}

abbrev inquiry_outs : List Text
inquiry_outs = codes "MT4 Out 1 1" ∷ codes "MT4 Out 10 2" ∷ []

abbrev inquiry_inns : List Text
inquiry_inns = codes "MT4 In 1" ∷ []

-- The ports are there in the second round, and the bridge ends on the signal.
abbrev inquiry_world : InquiryWorld
inquiry_world = record {
  is_file = true;
  started = 0;
  polls =
      record { now = 0; gone = none; enumerated = returned 0 (listing [] []) }
      ∷ record {
        now = 300;
        gone = none;
        enumerated = returned 0 (listing inquiry_outs inquiry_inns);
      }
      ∷ [];
  stopping = record {
    alive = true;
    signal_raises = false;
    gone_in_grace = true;
    gone_after_terminate = true;
  };
  outs = inquiry_outs;
  inns = inquiry_inns;
  cycles = cycles;
}

inquiry_args-IsAccepted : IsAccepted inquiry_args
inquiry_args-IsAccepted = record {
  counted = omega arith;
  spaced = omega arith;
  waits = omega arith;
  readies = omega arith;
}

inquiry_world-IsReady : IsReady inquiry_args inquiry_world
unfolding wait_until_ready listing find_port is_space port_match_rank normalize_port_label
    rsplit_space to_lower
inquiry_world-IsReady = record {
  file = refl;
  names = (codes "MT4 Out 1 1", codes "MT4 In 1");
  waited = refl;
}

inquiry_world-IsAnswerable : IsAnswerable inquiry_args inquiry_world
unfolding loop_opts select_port port_match_rank normalize_port_label rsplit_space to_lower
inquiry_world-IsAnswerable = record {
  out_name = codes "MT4 Out 1 1";
  in_name = codes "MT4 In 1";
  out_found = refl;
  in_found = refl;
  each = refl;
  recorded = cycles-IsRecorded;
}

main-answered_example :
    main inquiry_args inquiry_world
    ≡ some (ok (answered_status inquiry_args inquiry_world), launch ∷ break_signal ∷ [])
unfolding stop
main-answered_example =
    main-answered inquiry_args inquiry_world refl inquiry_args-IsAccepted inquiry_world-IsAnswerable
      (λ e. inquiry_world-IsReady)
