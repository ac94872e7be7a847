-- ===== src/Loopback.antt =====
-- The trials of the long SysEx loopback: `_run_one_trial`, `_run_payload_trials` and
-- `_run_loopback_session` of scripts/lab/sysex-long-loopback.py, with `check_wall_deadline` and
-- `ScenarioStats` of scripts/lab/sysex_long_loopback_lib.py. Times are whole milliseconds; a line of
-- the log is a value that carries what the line prints.
pub mod Runs
pub mod Trials
pub mod Counters
pub mod Aborts
use unitor_win64_driver.Base.{
  ℕ, zero, suc, ◌+◌, ◌*◌, Bool, true, false, ◌&&◌, ◌||◌, not, Option, none, some, List, [], ◌∷◌,
  ◌++◌, Text, Bytes, Result, ok, err, ltb, leb, ◌==◌, if◌then◌else◌, ◌>>=◌,
}
use unitor_win64_driver.Midi.{Poll}
use unitor_win64_driver.Sysex.Frame.{FrameError, send_sysex}
use unitor_win64_driver.Sysex.Wait.{WaitResult}
use unitor_win64_driver.Sysex.Diff.{wait_exact_sysex}

pub record LoopbackArgs : Type 0 where
  pub reply_timeout : ℕ
  pub abort_after_timeouts : ℕ
  pub pass_percent : ℕ

-- What one trial reads: the clock at the check of the deadline, whether mido or the port raises on
-- the send, the clock at the start of the wait, and the polls of the wait
pub record Trial : Type 0 where
  pub checked : ℕ
  pub port_raises : Bool
  pub started : ℕ
  pub polls : List Poll

-- The message of a `LabAbort`
pub data AbortReason : Type 0 where
  wall_exceeded : ℕ → AbortReason
  consecutive_fails : ℕ → AbortReason

pub data Line : Type 0 where
  fail_line send_line : ℕ → Line
  recv_line : ℕ → ℕ → Line
  timeout_line : ℕ → ℕ → Text → Line
  abort_line : AbortReason → Line

-- `ScenarioStats`, with the log lines of its trials
pub record ScenarioStats : Type 0 where
  pub sent : ℕ
  pub ok_count : ℕ
  pub fail_lines : List Line
  pub abort_reason : Option AbortReason
  pub lines : List Line

abbrev pub new_stats : ScenarioStats
new_stats = record { sent = 0; ok_count = 0; fail_lines = []; abort_reason = none; lines = [] }

-- `check_wall_deadline` raises.
abbrev pub wall_passed : Option ℕ → ℕ → Bool
wall_passed none now = false
wall_passed (some deadline) now = leb deadline now

-- `send_sysex` raises: the payload is no frame, or mido or the port refuses it.
abbrev pub send_raises : Result FrameError Bytes → Bool → Bool
send_raises (err e) port_raises = true
send_raises (ok body) port_raises = port_raises

abbrev emit : Line → ScenarioStats → ScenarioStats
emit line s = record s { lines = s.lines ++ line ∷ [] }

abbrev pub record_fail : Line → ScenarioStats → ScenarioStats
record_fail line s = record s {
  fail_lines = s.fail_lines ++ line ∷ [];
  lines = s.lines ++ line ∷ [];
}

-- The end of a trial, from the result of the wait
abbrev pub trial_result : ℕ → ScenarioStats → WaitResult → Bool × ScenarioStats
trial_result index s r = elim r.reply [
  | some reply ↦ (true, emit (recv_line index r.dt_ms) (record s { ok_count = s.ok_count + 1 }))
  | none ↦ (false, record_fail (timeout_line index r.dt_ms r.note) s)
]

-- `none`: the recording ends before the wait does.
unfoldable pub run_one_trial :
    LoopbackArgs
    → Option ℕ
    → Bytes
    → ScenarioStats
    → ℕ
    → Trial
    → Option (Result AbortReason (Bool × ScenarioStats))
run_one_trial args deadline payload s index t =
    let counted = record s { sent = s.sent + 1 } in
    let waited = wait_exact_sysex payload t.started args.reply_timeout t.polls >>= λ r.
    some (ok (trial_result index (emit (send_line index) counted) r)) in
    if wall_passed deadline t.checked
    then some (err (wall_exceeded index))
    else if send_raises (send_sysex payload) t.port_raises
    then some (ok (false, record_fail (fail_line index) counted))
    else waited

-- The handler of `LabAbort`, before it raises again
abbrev pub abort : AbortReason → ScenarioStats → ScenarioStats
abort reason s = record s { abort_reason = some reason; lines = s.lines ++ abort_line reason ∷ [] }

abbrev pub next_consecutive : Bool → ℕ → ℕ
next_consecutive true consecutive = 0
next_consecutive false consecutive = consecutive + 1

abbrev pub must_abort : LoopbackArgs → ℕ → Bool
must_abort args consecutive =
    ltb 0 args.abort_after_timeouts && leb args.abort_after_timeouts consecutive

-- The loop of `_run_payload_trials` from `index` on, one recorded trial for each of its rounds
module _ (args : LoopbackArgs) (deadline : Option ℕ) (payload : Bytes) where
  unfoldable pub payload_rounds : ℕ → ScenarioStats → ℕ → List Trial → Option ScenarioStats
  unfolding run_one_trial
  payload_rounds consecutive s index [] = some s
  payload_rounds consecutive s index (t ∷ ts) =
      run_one_trial args deadline payload s index t >>= λ tried. elim tried [
        | err reason ↦ some (abort reason s)
        | ok (matched, s') ↦
            let consecutive' = next_consecutive matched consecutive in
            let rest = payload_rounds consecutive' s' (index + 1) ts in
            if must_abort args consecutive'
            then some (abort (consecutive_fails consecutive') s')
            else rest
      ]

  unfoldable pub run_payload_trials : List Trial → Option ScenarioStats
  unfolding payload_rounds
  run_payload_trials trials = payload_rounds 0 new_stats 1 trials

-- `stats.rate < pass_percent or stats.sent == 0`
abbrev pub below : LoopbackArgs → ScenarioStats → Bool
below args s = ltb (100 * s.ok_count) (args.pass_percent * s.sent) || s.sent == 0

-- The payloads of `_run_loopback_session` in turn, each with its recorded trials: whether all are
-- good enough, or the reason of the abort that leaves the session
unfoldable pub run_loopback_session :
    LoopbackArgs → Option ℕ → Bool → List (Bytes × List Trial) → Option (Result AbortReason Bool)
unfolding run_payload_trials
run_loopback_session args deadline all_ok [] = some (ok all_ok)
run_loopback_session args deadline all_ok ((payload, trials) ∷ plan) =
    run_payload_trials args deadline payload trials >>= λ stats.
    let rest = run_loopback_session args deadline (not (below args stats) && all_ok) plan in
    elim stats.abort_reason [ some reason ↦ some (err reason) | none ↦ rest ]
