-- ===== src/Tests/Sessions.antt =====
-- Fresh sessions: two starts of the bridge, and a run that goes past its budget.
use unitor_win64_driver.Base.{
  ℕ, ◌≡◌, refl, true, false, none, some, List, [], ◌∷◌, codes, arith, All, take, not, ◌&&◌, ◌==◌,
  if◌then◌else◌, Text, ◌≢◌, ◌++◌, Bytes, ok, read_digits, is_space,
}
use unitor_win64_driver.Options.{CommandLine}
use unitor_win64_driver.Options.Labs.{
  MidOptions, mid_options, validate_mid, validate_mid_mode, BankOptions, bank_options, LongOptions,
  long_options,
}
use unitor_win64_driver.Bridge.{ReadyPoll, StopWorld}
use unitor_win64_driver.Bridge.Listing.{returned, listing}
use unitor_win64_driver.Bridge.Ready.{now, later}
use unitor_win64_driver.Sessions.{status, BridgeStart, Done, run_with_bridge}
use unitor_win64_driver.Sessions.Matrix.{Ports, mid_child, bank_child}
use unitor_win64_driver.Sessions.Single.{single_mode}
use unitor_win64_driver.Sessions.Accepted.{
  mid_child-validate, mid_mode, bank_mode, long_mode, children_run_one_session,
}
use unitor_win64_driver.Sessions.Verdict.{
  Outcome, verdict, AllMeet, children_of, run_with_bridge-verdict,
}
use unitor_win64_driver.Sessions.Long
use unitor_win64_driver.Sessions.Long.Plan.{
  IntText, natural, parse_sizes, Plan, fixture_plan, payload_plan, Fits,
}
use unitor_win64_driver.Sessions.Long.Payloads.{payload_plan-Fits}
use unitor_win64_driver.Sessions.Long.Budget.{
  sessions_status, IsTimely, run_fresh_midi_sessions-status,
}

abbrev poll : ℕ → ReadyPoll
poll t = record {
  now = t;
  gone = none;
  enumerated = returned 0 (listing (codes "Out" ∷ []) (codes "In" ∷ []));
}

abbrev stopping : StopWorld
stopping = record {
  alive = true;
  signal_raises = false;
  gone_in_grace = true;
  gone_after_terminate = false;
}

abbrev start : ℕ → BridgeStart
start code = record {
  is_file = true;
  started = 0;
  polls = poll 0 ∷ poll 3000 ∷ [];
  rc = status code;
  captured = [];
  stopping = stopping;
}

abbrev options : MidOptions
options = record {
  count = 10;
  interval = 1000;
  reply_timeout = 3000;
  bridge_ready_timeout = 2000;
  with_bridge = true;
  fresh_starts = 2;
  fresh_sessions = 1;
  dumps_only = false;
  pushes_only = true;
  append_log = false;
}

abbrev ports : Ports
ports = record {
  pass_percent = 100;
  out_port = codes "Out";
  in_port = codes "In";
  patch_fixture = codes "patch.syx";
  master_fixture = codes "master.syx";
}

abbrev child : ℕ → CommandLine
child = mid_child options ports (codes "lab.log")

run_with_bridge-verdict_example :
    (os : List Outcome) × (d : Done) × AllMeet
      (codes "Out")
      (codes "In")
      2000
      (start 0 ∷ start 1 ∷ [])
      os
    × (run_with_bridge (codes "Out") (codes "In") 2000 child 2 (start 0 ∷ start 1 ∷ [])
        ≡ some (verdict os, d))
    × (d.children ≡ children_of (codes "Out") (codes "In") 2000 child 1 os)
run_with_bridge-verdict_example =
    run_with_bridge-verdict (codes "Out") (codes "In") 2000 child 2 (start 0 ∷ start 1 ∷ []) refl
      (later (now (omega arith)), (later (now (omega arith)), tt))

options-IsAccepted : validate_mid options ≡ none
unfolding validate_mid
options-IsAccepted = refl

mid_child-validate_example :
    (validate_mid_mode (mid_options (mid_child options ports (codes "lab.log") 2)) ≡ none)
    × (validate_mid (mid_options (mid_child options ports (codes "lab.log") 2)) ≡ (
        if options.pushes_only && not (2 == 1)
        then some (codes "Use only one of --dumps-only / --pushes-only")
        else none))
mid_child-validate_example = mid_child-validate options ports (codes "lab.log") 2 options-IsAccepted

abbrev sessions : List Long.Session
sessions =
    record { clock = 100; child = Long.returned (status 0) }
    ∷ record { clock = 5000; child = Long.wall_expired }
    ∷ record { clock = 9000; child = Long.returned (status 0) }
    ∷ []

run_fresh_midi_sessions-status_example :
    (k : ℕ) × (Long.run_fresh_midi_sessions (some 8000) 3 sessions
      ≡ some (sessions_status (some 8000) sessions, k))
    × All (IsTimely (some 8000)) (take k sessions)
run_fresh_midi_sessions-status_example = run_fresh_midi_sessions-status (some 8000) 3 sessions refl

abbrev bank : BankOptions
bank = bank_options []

abbrev long : LongOptions
long = long_options []

children_run_one_session_example :
    (mid_mode (mid_options (mid_child options ports (codes "lab.log") 2)) ≡ single_mode)
    × (bank_mode (bank_options (bank_child bank ports (codes "lab.log") 2)) ≡ single_mode)
    × (long_mode (
          long_options (
            Long.long_child
              (λ t. t)
              long
              (64 ∷ [])
              ports
              (codes "f.syx")
              (codes "lab.log")
              (some 9000)
              500
              2))
        ≡ single_mode)
children_run_one_session_example =
    children_run_one_session (λ t. t) (64 ∷ []) (codes "f.syx") (some 9000) 500 options bank long
      ports (codes "lab.log") 2

abbrev int_of : Text → IntText
int_of t = natural (read_digits 0 t)

abbrev payload : Bytes
payload = 0xF0 ∷ 0x7D ∷ 0xF7 ∷ []

abbrev sizes_text : Text
sizes_text = codes "64, 128,"

abbrev two_sizes : List ℕ
two_sizes = 64 ∷ 128 ∷ []

sizes-AreParsed : parse_sizes int_of sizes_text ≡ ok two_sizes
unfolding parse_sizes is_space read_digits
sizes-AreParsed = refl

fixture-IsPlanned : fixture_plan true (some payload) ≡ ok []
fixture-IsPlanned = refl

payload_plan-Fits_example :
    (two_sizes ≢ [])
    × (plan : Plan) × (payload_plan two_sizes true (some payload) ≡ ok (plan ++ []))
    × Fits two_sizes plan
payload_plan-Fits_example =
    payload_plan-Fits int_of sizes_text two_sizes true (some payload) [] sizes-AreParsed
      fixture-IsPlanned
